-- ===== src/Lib.antt =====
-- RemoteDrone: a base station and a drone that agree on a key and then exchange commands, status,
-- video feed and signs of life over UDP.
--
-- Each main program polls the socket and decodes a message (`pollAndDecode` of src/sm/enc_dec.c), then
-- steps its machines, which read the decoded message, encode and encrypt an answer, and transmit it.
-- The parts, from the bottom up, and the modules that model them:
--
--   Base                names, Boolean tests, lists over the native numbers, bits, `memcpy`
--   General.Compare     src/general/compare_arrays.c
--   General.Endian      src/general/endian_convert.c
--   Crypto.ModArithmetic, Crypto.Montgomery   src/crypto/mod_arithmetic.c
--   Crypto.ModInverse   `mod_inv` of that file
--   Crypto.CurveParams  src/general/params.c
--   Crypto.EcArithmetic, Crypto.Ecdh, Crypto.Ecdsa   src/crypto/ec_arithmetic.c, ecdh.c, ecdsa.c
--   Crypto.Aes          src/crypto/aes.c
--   Crypto.Aegis        src/crypto/aegis.c
--   Crypto.CrtDrbg      src/crypto/crt_drbg.c
--   Sm.Params           the constants of include/general/params.h
--   Sm.SeqNb            the sequence numbers of src/sm/enc_dec.c
--   Sm.Udp              the packet buffer of src/sm/udp.c (UNIX)
--   Sm.UdpIo            the frames of src/sm/udp_io.c
--   Sm.SessionInfo      include/sm/session_info.h
--   Sm.Encode, Sm.VideoBuffer, Sm.Decode      the rest of src/sm/enc_dec.c
--   Sm.World            what a step works on, and the environment
--   Sm.SessionReq, Sm.SessionRes, Sm.SessionInit   src/sm/session_{req,res,init}_sm.c
--   Sm.KeyExchange, Sm.DroneKep, Sm.BaseStationKep  src/sm/drone_kep_sm.c, src/sm/bs_kep_sm.c
--   Sm.CheckInput, Sm.WriteOutput   src/sm/check_input.c, write_output.c
--   Main                src/main/main_drone.c, src/main/main_base_station.c
--   Tests               tests and instances
--
-- Conventions. A C function in camelCase is the definition in snake_case. The configuration is SIZE_32
-- (8 words of 32 bits), UNIX, UDP set, MAKE_BER and RELIABLE_FEED 0. A word is a number below 2 ^ 32
-- and its arithmetic has its wrap-around written out. A part of an array between two indices is a
-- list, an array that is written is returned, and a pointer into a message array is an index or, for
-- NULL, `none`. State that C keeps in globals or behind pointers is a field of `World`. A handler that
-- is given a context inside the session takes the context and returns it, since it reaches that
-- context in no other way.
--
-- Loops are structural recursion, but for `send_message`: it runs on the length of its data plus two,
-- one round more than it can take, and `Outcome` has a value for a loop that was cut off, which the
-- theorems on it exclude; the endless loops of the main programs run over a list of keys. The loop of
-- `mod_inv` has 1026 rounds: two rounds halve the product of two numbers of 256 bits. The loops of
-- `ECDHSample` and `ecdsaSign` draw random numbers until one is good; they have fuel and return
-- `none` at its end. The loops of `getRandomBytes` have 256 rounds, one for each byte of entropy. The rounds of the AEGIS loops are counted by (length - 1) / 16.
--
-- Parameters. AEGIS takes the AES round as a function, `aes_round` of Crypto.Aes for one; where
-- a theorem needs it, it writes blocks of 16 bytes. Whether the kernel takes a packet, the clock, the
-- random bytes and the input of the user are functions of the number of the call. The packets to
-- arrive are a list; an empty list stands for a socket with nothing to read. The key exchange takes
-- the operations on the elliptic curve and the digest as the record `KeyAgreement`. The digest of
-- src/crypto/sha3.c, a copy of another project's code, is a function that gives 32 bytes.
--
-- Not modelled: src/crypto/sha3.c, src/main/main.c, the printing of src/sm/write_output.c, the opening of
-- sockets and the live feed sockets of src/sm/udp.c, and the printing and input helpers of
-- src/general.
pub mod Base
pub mod General
pub mod Crypto
pub mod Sm
pub mod Main
pub mod Tests
