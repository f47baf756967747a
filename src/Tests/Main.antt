-- ===== src/Tests/Main.antt =====
-- Tests of the two main programs in a session that is told to quit.
use remote_drone.Base.{[], ◌∷◌, refl, inr}
use remote_drone.Sm.SessionInfo.{kep}
use remote_drone.Sm.SessionReq.{with_system_state}
use remote_drone.Sm.World.{World}
use remote_drone.Main.Drone.{loop_drone}
use remote_drone.Main.Quit.{IsCleared, drone-quit}
use remote_drone.Tests.Protocol.{command_world}
use remote_drone.Tests.Exchange.{still_environment, trusting_keys}

drone-quit_example :
    IsCleared command_world
      (loop_drone still_environment trusting_keys (113 ∷ 115 ∷ []) command_world)
drone-quit_example = drone-quit still_environment trusting_keys command_world 115 (inr refl)

-- The base station in the middle of a key exchange.
abbrev agreeing_world : World
agreeing_world = with_system_state kep command_world
