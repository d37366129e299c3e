-- ===== src/Relay/Endpoint/Tests.antt =====
-- A run of the relay.
use shell_sync.Base.{ℕ, refl, Option, some, List, [], ◌∷◌}
use shell_sync.Base.Dict.{lookup}
use shell_sync.Wire.Control.{Frame, FrameType, frame}
use shell_sync.Relay.Hub.{Hub, new_hub}
use shell_sync.Relay.Hub.Net.{close_session}
use shell_sync.Relay.Hub.Leaks.{reliable}
use shell_sync.Relay.Hub.Inv.{HubInv}
use shell_sync.Relay.Endpoint.{text, serve}
use shell_sync.Relay.Endpoint.Reach.{Reach, start, next, connects, ends, Reach-HubInv}

-- Every message is read as the hello of a daemon.
abbrev hello_json : List ℕ → Option Frame
hello_json b = some (record (frame FrameType.hello) { role = "daemon"; ver = 1 })

abbrev one_session : Hub
one_session = serve reliable hello_json new_hub 1 "10.0.0.9" text (123 ∷ [])

one_session-Reach : Reach reliable hello_json (close_session reliable one_session 1)
unfolding new_hub lookup
one_session-Reach =
    next (next start (connects new_hub 1 "10.0.0.9" text (123 ∷ []) refl)) (ends one_session 1)

Reach-HubInv_example : HubInv (close_session reliable one_session 1)
Reach-HubInv_example = Reach-HubInv reliable hello_json one_session-Reach
