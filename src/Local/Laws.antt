-- ===== src/Local/Laws.antt =====
-- What holds of a run in local mode.
use haproxy_operator.Base.{
  String, Text, Bool, true, false, ◌≡◌, refl, ◌∙◌, ap, List, [], ◌∷◌, ◌===◌, ◌&&◌, ◌||◌,
  if◌then◌else◌, Bool-cases, inl, inr, arith,
}
use haproxy_operator.Haproxy.Errors.{Cause, foreign}
use haproxy_operator.Platform.{Platform}
use haproxy_operator.Act.{State, Act, pure, ◌>>=◌}
use haproxy_operator.Local.{
  Runner, Op, Notice, done, event, watch_error, Exit, returned, running, is_change, on_change,
  on_event, run_loop,
}

-- What the loop is to do something about: the file has new content, or the context is done.
pub data Turn : Type 0 where
  renewed : Turn
  ended : Cause → Turn

-- The operations that give a file new content.
abbrev pub renews : Op → Bool
renews op = op.create || (op.rename || op.write)

-- What of the notices concerns a file: the renewals of it, up to the end of the context.
abbrev pub turns : String → List Notice → List Turn
turns path [] = []
turns path (done c ∷ notices) = ended c ∷ []
turns path (event name op ∷ notices) =
    if name === path && renews op then renewed ∷ turns path notices else turns path notices
turns path (watch_error c ∷ notices) = turns path notices

module _ {p : Platform} where
  -- The loop without its tests: every turn is a change.
  unfoldable pub follow : Runner → Text → List Turn → Act p Exit
  follow r last [] = pure (running last)
  follow r last (ended c ∷ rest) = pure (returned (foreign c))
  follow r last (renewed ∷ rest) = do next ← on_change r last; follow r next rest

-- The two tests of the loop are that the event renews its file.
pub is_change-eq :
    (r : Runner) (name : String) (op : Op)
    → is_change r name op ≡ (name === r.cfg_path && renews op)
is_change-eq r name op = ground arith

run_loop-event :
    {p : Platform} (r : Runner) (last : Text) (name : String) (op : Op) (notices : List Notice)
    (s : State p)
    → run_loop r last (event name op ∷ notices) s
      ≡ run_loop r (on_event r last name op s).0 notices (on_event r last name op s).1
unfolding run_loop ◌>>=◌
run_loop-event r last name op notices s = refl

on_event-eq :
    {p : Platform} (r : Runner) (last : Text) (name : String) (op : Op) (s : State p) (b : Bool)
    → (name === r.cfg_path && renews op) ≡ b
    → on_event r last name op s ≡ (if b then on_change r last else pure last) s
unfolding on_event
on_event-eq r last name op s b h = rw (is_change-eq r name op, h) refl

-- For every state, hash and sequence of notices, the loop does what it would do with a change of the
-- file for each event that creates, renames or writes the file itself, in their order and up to the
-- end of the context, and with nothing for all other events and for the watcher's errors.
pub run_loop-follow :
    {p : Platform} (r : Runner) (last : Text) (notices : List Notice) (s : State p)
    → run_loop r last notices s ≡ follow r last (turns r.cfg_path notices) s
unfolding run_loop follow ◌>>=◌ pure
run_loop-follow {p} r last [] s = refl
run_loop-follow {p} r last (done c ∷ notices) s = refl
run_loop-follow {p} r last (watch_error c ∷ notices) s = run_loop-follow r last notices s
run_loop-follow {p} r last (event name op ∷ notices) s =
    elim (Bool-cases (name === r.cfg_path && renews op)) [
      | inl change ↦ rw change (
          run_loop-event r last name op notices s
          ∙ ap (λ (x : Text × State p). run_loop r x.0 notices x.1)
              (on_event-eq r last name op s true change)
          ∙ run_loop-follow r (on_change r last s).0 notices (on_change r last s).1)
      | inr other ↦ rw other (
          run_loop-event r last name op notices s
          ∙ ap (λ (x : Text × State p). run_loop r x.0 notices x.1)
              (on_event-eq r last name op s false other)
          ∙ run_loop-follow r last notices s)
    ]
