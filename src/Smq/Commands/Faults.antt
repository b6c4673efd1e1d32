-- ===== src/Smq/Commands/Faults.antt =====
-- Texts for which the functions of smqueue/smcommands.cpp read outside of what they were given.
use smqueue.Prelude.{
  ◌≢◌, ◌<◌, ◌+◌, ◌≡◌, refl, [], ◌∷◌, Str, fault, true, arith, starts_with, drop, length,
}
use smqueue.State.{no_state}
use smqueue.Message.{Msg}
use smqueue.Smq.{World, Smq}
use smqueue.Smq.Commands.{quit_command, run_whiplash_quit}

starts_with_refl : (s : Str) → starts_with s s ≡ true
unfolding starts_with
starts_with_refl [] = refl
starts_with_refl (c ∷ s) = ground (arith, starts_with_refl s)

drop-length : (s : Str) → drop (length s) s ≡ []
drop-length [] = refl
drop-length (c ∷ s) = drop-length s

-- A text that is the quit password and nothing else makes whiplash_quit read behind the end of the text.
pub whiplash_quit-password :
    (w : World) (s : Smq) → run_whiplash_quit w s w.config.quit_password ≡ fault
unfolding run_whiplash_quit quit_command
whiplash_quit-password w s =
    rw (starts_with_refl w.config.quit_password, drop-length w.config.quit_password) refl

-- Not in NO_STATE, and due in less than LONGDELETMS.
abbrev pub IsFresh : World → Msg → Type 0
IsFresh w x = (x.state ≢ no_state) × (x.next_action_time < w.now + 5000000)
