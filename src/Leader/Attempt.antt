-- ===== src/Leader/Attempt.antt =====
-- internal/leader/leader.go, attemptLeadership: one attempt, with the calls of its backend.
use selfservice_api.Base.{
  ◌≡◌, refl, sym, ap, ◌∙◌, List, [], ◌∷◌, ◌++◌, Bool, true, false, not, arith, All,
}
use selfservice_api.Leader.{Elector, become_leader, lose_leadership}

-- What the select in the holding loop sees: the end of ctx, or a tick with the answer of Keepalive.
pub data HoldEvent : Type 0 where
  ctx_done tick_alive tick_lost : HoldEvent

-- The answers of one backend: newBackend failed, TryAcquire failed, TryAcquire said no, or it said
-- yes and the holding loop saw these events.
pub data Answers : Type 0 where
  open_failed acquire_failed refused : Answers
  acquired : List HoldEvent → Answers

-- A call of the backend, with what IsLeader reported when it was made.
pub data Call : Type 0 where
  try_acquire keepalive release close : Bool → Call

-- The holding loop. Past the last event it is still waiting.
pub data Held : Type 0 where
  waiting : List Call → Held
  ended : List Call → Held

abbrev pub then_call : Call → Held → Held
then_call c (waiting cs) = waiting (c ∷ cs)
then_call c (ended cs) = ended (c ∷ cs)

unfoldable pub hold : Elector → List HoldEvent → Held
hold e [] = waiting []
hold e (ctx_done ∷ es) = ended []
hold e (tick_alive ∷ es) = then_call (keepalive e.is_leader) (hold e es)
hold e (tick_lost ∷ es) = ended (keepalive e.is_leader ∷ [])

-- The deferred calls of Release and Close.
abbrev pub cleanup : Elector → List Call
cleanup e = release e.is_leader ∷ close e.is_leader ∷ []

-- The holding loop, then the deferred calls, loseLeadership first.
unfoldable pub finish_attempt : Elector → List Call → Held → Elector × List Call
finish_attempt e first (waiting cs) = (e, first ++ cs)
finish_attempt e first (ended cs) = let e' = lose_leadership e in (e', first ++ (cs ++ cleanup e'))

unfoldable pub attempt_leadership : Answers → Elector → Elector × List Call
attempt_leadership open_failed e = (e, [])
attempt_leadership acquire_failed e = (e, try_acquire e.is_leader ∷ cleanup e)
attempt_leadership refused e = (e, try_acquire e.is_leader ∷ cleanup e)
attempt_leadership (acquired es) e =
    let e' = become_leader e in finish_attempt e' (try_acquire e.is_leader ∷ []) (hold e' es)

-- Run: attempts, one after the other; the time between them is left out.
unfoldable pub run_attempts : List Answers → Elector → Elector
run_attempts [] e = e
run_attempts (a ∷ more) e = run_attempts more (attempt_leadership a e).0

-- TryAcquire and the two calls that end the session are made by a follower, Keepalive by a leader.
abbrev pub IsOrderly : Call → Type 0
IsOrderly (try_acquire b) = b ≡ false
IsOrderly (keepalive b) = b ≡ true
IsOrderly (release b) = b ≡ false
IsOrderly (close b) = b ≡ false

abbrev pub ends_holding : List HoldEvent → Bool
ends_holding [] = false
ends_holding (ctx_done ∷ es) = true
ends_holding (tick_lost ∷ es) = true
ends_holding (tick_alive ∷ es) = ends_holding es

-- Whether the attempt still holds the lock after its last event.
abbrev pub still_holds : Answers → Bool
still_holds open_failed = false
still_holds acquire_failed = false
still_holds refused = false
still_holds (acquired es) = not (ends_holding es)

abbrev HeldOrderly : Bool → Held → Type 0
HeldOrderly over (waiting cs) = All IsOrderly cs × (over ≡ false)
HeldOrderly over (ended cs) = All IsOrderly cs × (over ≡ true)

hold-HeldOrderly :
    (e : Elector) (es : List HoldEvent)
    → e.is_leader ≡ true
    → HeldOrderly (ends_holding es) (hold e es)
unfolding hold
hold-HeldOrderly e [] h = (tt, refl)
hold-HeldOrderly e (ctx_done ∷ es) h = (tt, refl)
hold-HeldOrderly e (tick_lost ∷ es) h = ((h, tt), refl)
hold-HeldOrderly e (tick_alive ∷ es) h = go (hold e es) (hold-HeldOrderly e es h)
  where
    go :
        (r : Held)
        → HeldOrderly (ends_holding es) r
        → HeldOrderly (ends_holding es) (then_call (keepalive e.is_leader) r)
    go (waiting cs) q = ((h, q.0), q.1)
    go (ended cs) q = ((h, q.0), q.1)

pub leads_after : (e : Elector) → (become_leader e).is_leader ≡ true
unfolding become_leader
leads_after e = ground arith

pub follows_after : (e : Elector) → (lose_leadership e).is_leader ≡ false
unfolding lose_leadership
follows_after e = ground arith

All-append : (xs ys : List Call) → All IsOrderly xs → All IsOrderly ys → All IsOrderly (xs ++ ys)
All-append [] ys hx hy = hy
All-append (x ∷ xs) ys hx hy = (hx.0, All-append xs ys hx.1 hy)

-- In an attempt of a follower, the lock is asked for and the session is ended only while the worker
-- does not call itself leader: leadership is given up before the lock is released. Afterwards it
-- leads exactly if it got the lock and the holding loop has not ended.
pub attempt_leadership-IsOrderly :
    (a : Answers) (e : Elector)
    → e.is_leader ≡ false
    → All IsOrderly (attempt_leadership a e).1
      × ((attempt_leadership a e).0.is_leader ≡ still_holds a)
unfolding attempt_leadership finish_attempt
attempt_leadership-IsOrderly open_failed e h = (tt, h)
attempt_leadership-IsOrderly acquire_failed e h = ((h, (h, (h, tt))), h)
attempt_leadership-IsOrderly refused e h = ((h, (h, (h, tt))), h)
attempt_leadership-IsOrderly (acquired es) e h =
    go (hold (become_leader e) es) (hold-HeldOrderly (become_leader e) es (leads_after e))
  where
    e' : Elector
    e' = become_leader e

    over : Elector
    over = lose_leadership e'

    go :
        (r : Held)
        → HeldOrderly (ends_holding es) r
        → All IsOrderly (finish_attempt e' (try_acquire e.is_leader ∷ []) r).1
          × ((finish_attempt e' (try_acquire e.is_leader ∷ []) r).0.is_leader
              ≡ not (ends_holding es))
    go (waiting cs) q = ((h, q.0), leads_after e ∙ sym (ap not q.1))
    go (ended cs) q = (
      (h, All-append cs (cleanup over) q.0 (follows_after e', (follows_after e', tt))),
      follows_after e' ∙ sym (ap not q.1),
    )
