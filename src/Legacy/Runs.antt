-- ===== src/Legacy/Runs.antt =====
-- `_mutate` of tools/work_queue.py, one command after the other on one Issue.
use agent_engineering_standa.Base.{
  ◌≡◌, ◌∙◌, ap, true, false, List, [], ◌∷◌, Text, has_part, ok, ◌>>=◌, All, bind-eq-ok, arith,
}
use agent_engineering_standa.Queue.Types.{Legacy}
use agent_engineering_standa.Legacy.Items.{Answer, validate, empty_state}
use agent_engineering_standa.Legacy.Mutate.{Issue, Command, is_init, commanded, source, mutate, run}
use agent_engineering_standa.Legacy.Body.{Json, marker, newline, parse, join, checklist, render}
use agent_engineering_standa.Legacy.Read.{IsJson, parse-render}

-- The commands after `init`, the last one first, applied to the empty queue.
unfoldable pub replayed : List Command → Answer Legacy
replayed [] = ok empty_state
replayed (c ∷ cs) = replayed cs >>= commanded c

-- A serial use of one Issue: `init` writes the body, and every later command is handed the body that
-- the one before it wrote. The commands, the states and the last body; the latest stands first.
-- Each `_mutate` reads the Issue a second time, where only the stamp is looked at.
pub data Runs (json : Json) : List Command → List Legacy → Legacy → Text → Type 0 where
  created :
      {t : Legacy} {body : Text} (read again : Issue)
      → run json Command.init read again ≡ ok (t, body)
      → Runs json [] (t ∷ []) t body
  wrote :
      {cs : List Command} {ss : List Legacy} {s t : Legacy} {old body : Text} (c : Command)
      (stamp : Text) (again : Issue)
      → Runs json cs ss s old
      → is_init c ≡ false
      → run json c (record { body = old; stamp = stamp }) again ≡ ok (t, body)
      → Runs json (c ∷ cs) (t ∷ ss) t body

-- What the code relies on of a state that it writes: its JSON reads back, and no line of its
-- checklist holds the marker.
pub record IsPlain (json : Json) (state : Legacy) : Type 0 where
  pub dumped : IsJson json state
  pub unmarked : has_part marker (join (newline ∷ []) (checklist state)) ≡ false

run-eq-ok :
    (json : Json) (c : Command) (read again : Issue) (t : Legacy) (body : Text)
    → run json c read again ≡ ok (t, body)
    → (s : Legacy) × (source json (is_init c) read.body ≡ ok s)
      × (commanded c s ≡ ok t)
      × (validate t ≡ ok tt)
      × (body ≡ render json t)
unfolding run mutate
run-eq-ok json c read again t body h =
    let (s, es, h1) = bind-eq-ok (source json (is_init c) read.body) _ h in
    let (u, eu, h2) = bind-eq-ok (commanded c s) _ h1 in
    let same : u ≡ t = ground arith in
    let valid : validate t ≡ ok tt = rw (← same) (ground arith) in
    (s, es, eu ∙ ap ok same, valid, ground arith)

written-parse :
    (json : Json) (t : Legacy) (body : Text)
    → IsPlain json t
    → validate t ≡ ok tt
    → body ≡ render json t
    → parse json body ≡ ok t
written-parse json t body p v e = rw e (parse-render json t p.dumped p.unmarked v)

-- `init` starts from the empty queue.
started :
    (json : Json) (old : Text) (s t : Legacy)
    → source json true old ≡ ok s
    → commanded Command.init s ≡ ok t
    → replayed [] ≡ ok t
unfolding source commanded replayed
started json old s t es ec = ground arith

-- A later command starts from the state that the body holds.
continued :
    (json : Json) (c : Command) (old : Text) (s r t : Legacy)
    → is_init c ≡ false
    → parse json old ≡ ok s
    → source json (is_init c) old ≡ ok r
    → commanded c r ≡ ok t
    → commanded c s ≡ ok t
unfolding source
continued json c old s r t later held es ec =
    let read : parse json old ≡ ok r = rw later at es in let same : s ≡ r = cc in rw same ec

-- When one command after the other is run on one Issue, beginning with `init`, then the body holds
-- the state that the commands lead to from the empty queue, provided that the JSON of every state
-- written reads back and that no line of its checklist holds the marker: no command is lost, and
-- `parse` reads back what the last one wrote.
pub Runs-parse :
    {json : Json} {cs : List Command} {ss : List Legacy} {t : Legacy} {body : Text}
    → Runs json cs ss t body
    → All (IsPlain json) ss
    → (replayed cs ≡ ok t) × (parse json body ≡ ok t)
unfolding replayed
Runs-parse {json} (created {t} {body} read again h) p =
    let (s, es, ec, v, e) = run-eq-ok json Command.init read again t body h in
    (started json read.body s t es ec, written-parse json t body p.0 v e)
Runs-parse {json} (wrote {cs} {ss} {s} {t} {old} {body} c stamp again r later h) p =
    let (made, held) = Runs-parse r p.1 in
    let (s', es, ec, v, e) = run-eq-ok json c _ again t body h in
    (rw made (continued json c old s s' t later held es ec), written-parse json t body p.0 v e)
