-- ===== src/Queue/Keeps.antt =====
-- No operation of tools/queue_core.py touches the history of the state: only `seal` does.
use agent_engineering_standa.Base.{ℕ, ◌≡◌, ap, Text, ok, arith}
use agent_engineering_standa.Queue.Types.{State}
use agent_engineering_standa.Queue.Edit.{Change, limit, handoff}
use agent_engineering_standa.Queue.Transition.{transition, start, block, unblock, done}
use agent_engineering_standa.Queue.Request.{Request, perform}
use agent_engineering_standa.Queue.Inversion.{
  add-eq-ok, edit-eq-ok, block-eq-ok, unblock-eq-ok, done-eq-ok, move-eq-ok,
}
use agent_engineering_standa.Queue.Start.{start-eq-ok}

limit-history :
    (s : State) (n : ℕ) (by reason : Text) (c : Change)
    → limit s n by reason ≡ ok c
    → c.0.history ≡ s.history
unfolding limit
limit-history s n by reason c h = ground arith

handoff-history :
    (digest : Text → Text) (s : State) (value : Text) (c : Change)
    → handoff digest s value ≡ ok c
    → c.0.history ≡ s.history
unfolding handoff
handoff-history digest s value c h = ground arith

module _ (s : State) (id reason : Text) (c : Change) where
  start-history : start s id ≡ ok c → c.0.history ≡ s.history
  start-history h =
      let (i, found, passed, here, room, new) = start-eq-ok s id c h in
      ap (λ (t : State). t.history) new

  block-history : block s id reason ≡ ok c → c.0.history ≡ s.history
  block-history h =
      let (i, r, ei, er, eb, new) = block-eq-ok s id reason c h in ap (λ (t : State). t.history) new

  unblock-history : unblock s id ≡ ok c → c.0.history ≡ s.history
  unblock-history h =
      let (i, ei, eb, new) = unblock-eq-ok s id c h in ap (λ (t : State). t.history) new

  done-history : done s id reason ≡ ok c → c.0.history ≡ s.history
  done-history h =
      let (i, ei, eb, new) = done-eq-ok s id reason c h in ap (λ (t : State). t.history) new

  transition-history :
      (action : Text) → transition s id action reason ≡ ok c → c.0.history ≡ s.history
  unfolding transition
  transition-history action h =
      ground (arith, start-history, block-history, unblock-history, done-history)

pub perform-history :
    (digest : Text → Text) (s : State) (r : Request) (c : Change)
    → perform digest s r ≡ ok c
    → c.0.history ≡ s.history
unfolding perform
perform-history digest s (Request.add title refs note deps) c h =
    let (t, rs, n, ds, et, er, en, ed, new) = add-eq-ok s title refs note deps c h in
    ap (λ (t : State). t.history) new
perform-history digest s (Request.edit id d) c h =
    let (i, p, ei, ep, new) = edit-eq-ok s id d c h in ap (λ (t : State). t.history) new
perform-history digest s (Request.move id after before by reason) c h =
    let (a, i, j, eo, ea, ei, en, ej, ed, new) = move-eq-ok s id after before by reason c h in
    ap (λ (t : State). t.history) new
perform-history digest s (Request.limit n by reason) c h = limit-history s n by reason c h
perform-history digest s (Request.handoff text) c h = handoff-history digest s text c h
perform-history digest s (Request.transition id action reason) c h =
    transition-history s id reason c action h
