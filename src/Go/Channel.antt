-- ===== src/Go/Channel.antt =====
-- Receives from the channel of a command. The channel is sent one value, so a second receive waits
-- for ever.
use mariadb_ctrl.Prelude.{◌∷◌, Bool, true, false, Option, none, some, if◌then◌else◌, contains}
use mariadb_ctrl.Go.Error.{Error}
use mariadb_ctrl.Go.World.{World, Chan, polled, received, cancelled}
use mariadb_ctrl.Go.Action.{Go, Outcome, returned, blocked, logged}
use mariadb_ctrl.Env.{Env, Wake, exit, done}

abbrev pub is_drained : Chan → World → Bool
is_drained ch w = contains w.drained ch.ref

-- The world after the value of the channel is received.
abbrev pub drain : Chan → Option Error → World → World
drain ch e w = logged (received ch.ref e) (record w { drained = ch.ref ∷ w.drained })

module _ (env : Env) where
  -- `select { case <-ch: true; default: false }`
  unfoldable pub poll : Chan → Go Bool
  poll ch w =
      if is_drained ch w
      then returned false (logged (polled ch.ref) w)
      else elim (env.poll_exit w.trace ch.cmd) [
        | none ↦ returned false (logged (polled ch.ref) w)
        | some e ↦ returned true (drain ch e w)
      ]

  -- `<-ch`
  unfoldable pub receive : Chan → Go (Option Error)
  receive ch w = if is_drained ch w then blocked w else elim (env.wait_exit w.trace ch.cmd) [
    | none ↦ blocked w
    | some e ↦ returned e (drain ch e w)
  ]

  -- the end of the context, or a wait for ever
  abbrev only_done : Option Wake → World → Outcome Wake
  only_done (some done) w = returned done (logged cancelled w)
  only_done (some (exit e)) w = blocked w
  only_done none w = blocked w

  abbrev first_of_two : Chan → Option Wake → World → Outcome Wake
  first_of_two ch (some done) w = returned done (logged cancelled w)
  first_of_two ch (some (exit e)) w = returned (exit e) (drain ch e w)
  first_of_two ch none w = blocked w

  -- `select { case err := <-ch: exit err; case <-ctx.Done(): done }`
  unfoldable pub receive_or_done : Chan → Go Wake
  receive_or_done ch w =
      if is_drained ch w
      then only_done (env.select_exit w.trace ch.cmd) w
      else first_of_two ch (env.select_exit w.trace ch.cmd) w
