-- ===== src/Gateway/Concurrent/Progress.antt =====
-- A request that has no answer yet can go on, whatever the invoker answers.
use agent_features.Common.{
  ℕ, zero, suc, ◌+◌, ◌≤◌, ◌<◌, ◌≡◌, refl, sym, ap, subst, List, [], ◌∷◌, ◌++◌, true, is_some, All,
  ◌⊎◌, inl, inr, arith,
}
use agent_features.Common.Floats.{Floats}
use agent_features.Invoker.{Invocation}
use agent_features.Gateway.{App, State}
use agent_features.Gateway.Concurrent.{
  Task, done, invoking, stepping, listing, resolving, announced, chatting, call_of, yielded,
  proceed, resume,
}
use agent_features.Gateway.Concurrent.Steps.{Config}
use agent_features.Gateway.Concurrent.Halting.{
  IsAnswered, weight, total, Run, Run-total, proceed-weight, resume-weight,
}

-- where a request without an answer waits
waits :
    {Float : Type 0} (t : Task Float)
    → IsAnswered t ⊎ (yielded t ≡ true) ⊎ (is_some (call_of t) ≡ true)
waits (done reply) = inl tt
waits (invoking f body) = inr (inr refl)
waits (stepping c st later ctx trace f input) = inr (inr refl)
waits listing = inr (inl refl)
waits (resolving sent capability payload) = inr (inl refl)
waits (announced sent f payload) = inr (inl refl)
waits (chatting sent f payload) = inr (inr refl)

-- the total where one request goes on
total-lower :
    {Float : Type 0} (front behind : List (Task Float)) (t t' : Task Float)
    → weight t' < weight t
    → total (front ++ t' ∷ behind) < total (front ++ t ∷ behind)
unfolding total
total-lower [] behind t t' h = omega arith
total-lower (u ∷ front) behind t t' h = omega (arith, total-lower front behind t t' h)

module _ {fl : Floats} {W : Type 0} (app : App fl W) where
  open fl use {Float}

  module _ (replies : Task Float → State Float W → Invocation Float × W) where
    -- one request goes on: behind a yield, or behind the answer of the invoker, with its world
    pub data Goes : State Float W → Task Float → State Float W → Task Float → Type 0 where
      goes : {s : State Float W} {t : Task Float} → yielded t ≡ true → Goes s t s (proceed app t s)
      answered_by :
          {s : State Float W} {t : Task Float}
          → is_some (call_of t) ≡ true
          → Goes s t
              (resume app t (replies t s).0 (record s { world = (replies t s).1 })).1
              (resume app t (replies t s).0 (record s { world = (replies t s).1 })).0

    -- The requests go on in `n` turns. In each of them one request does, between those in front and
    -- those behind, and every answer is the one that the invoker gives.
    pub data Driven : Config Float W → Config Float W → ℕ → Type 0 where
      at_rest : {c : Config Float W} → Driven c c 0
      driven :
          {s s' : State Float W} {t t' : Task Float} (front behind : List (Task Float))
          {d : Config Float W} {n : ℕ}
          → Goes s t s' t'
          → Driven (s', front ++ t' ∷ behind) d n
          → Driven (s, front ++ t ∷ behind) d (suc n)

    -- a turn that is possible
    record Possible (s : State Float W) (ts : List (Task Float)) : Type 0 where
      front : List (Task Float)
      task : Task Float
      behind : List (Task Float)
      is_here : ts ≡ front ++ task ∷ behind
      after : State Float W
      next_task : Task Float
      way : Goes s task after next_task

    -- a run to where every request has its answer
    record Complete (c : Config Float W) (room : ℕ) : Type 0 where
      end : Config Float W
      turns : ℕ
      way : Driven c end turns
      within : turns ≤ room
      answered : All IsAnswered end.1

    -- a turn of the invoker is a turn, so it lowers the weight
    Goes-weight :
        {s : State Float W} {t : Task Float} {s' : State Float W} {t' : Task Float}
        → Goes s t s' t'
        → weight t' < weight t
    Goes-weight (goes {s = s} {t = t} h) = proceed-weight app t s h
    Goes-weight (answered_by {s = s} {t = t} h) =
        resume-weight app t (replies t s).0 (record s { world = (replies t s).1 }) h

    possible : (s : State Float W) (ts : List (Task Float)) → All IsAnswered ts ⊎ Possible s ts
    possible s [] = inl tt
    possible s (t ∷ ts) = elim (waits t) [
      | inl h ↦ elim (possible s ts) [
        | inl hs ↦ inl (h, hs)
        | inr p ↦ inr (record {
          front = t ∷ p.front;
          task = p.task;
          behind = p.behind;
          is_here = ap (◌∷◌ t) p.is_here;
          after = p.after;
          next_task = p.next_task;
          way = p.way;
        })
      ]
      | inr (inl h) ↦ inr (record {
        front = [];
        task = t;
        behind = ts;
        is_here = refl;
        after = _;
        next_task = _;
        way = goes h;
      })
      | inr (inr h) ↦ inr (record {
        front = [];
        task = t;
        behind = ts;
        is_here = refl;
        after = _;
        next_task = _;
        way = answered_by h;
      })
    ]

    at_once :
        (s : State Float W) (ts : List (Task Float))
        → All IsAnswered ts
        → Complete (s, ts) (total ts)
    at_once s ts h = record {
      end = (s, ts);
      turns = 0;
      way = at_rest;
      within = omega arith;
      answered = h;
    }

    -- the total of the tasks behind a possible turn
    lower :
        (s : State Float W) (ts : List (Task Float)) (p : Possible s ts)
        → total (p.front ++ p.next_task ∷ p.behind) < total ts
    lower s ts p =
        subst (λ us. total (p.front ++ p.next_task ∷ p.behind) < total us) (sym p.is_here)
          (total-lower p.front p.behind p.task p.next_task (Goes-weight p.way))

    -- the run goes on from a turn that is possible
    complete :
        (fuel : ℕ) (s : State Float W) (ts : List (Task Float))
        → total ts ≤ fuel
        → Complete (s, ts) (total ts)
    complete zero s ts h = elim (possible s ts) [
      | inl done_all ↦ at_once s ts done_all
      | inr p ↦ absurd (omega (arith, lower s ts p))
    ]
    complete (suc fuel) s ts h = elim (possible s ts) [
      | inl done_all ↦ at_once s ts done_all
      | inr p ↦
          let less = lower s ts p in
          let rest = complete fuel p.after (p.front ++ p.next_task ∷ p.behind) (omega arith) in
          record {
            end = rest.end;
            turns = suc rest.turns;
            way =
                subst (λ us. Driven (s, us) rest.end (suc rest.turns)) (sym p.is_here)
                  (driven p.front p.behind p.way rest.way);
            within = omega (arith, rest.within);
            answered = rest.answered;
          }
    ]

    -- Behind any run of turns, in which the invoker may have answered anything: for every invoker,
    -- which answers by the request that waits and by the state, there is a run in which each answer
    -- is the one that it gives, and at the end of which every request has its answer. The run before
    -- and this run together have at most as many turns as the total of what the requests had left
    -- at the start.
    pub Run-complete :
        {c d : Config Float W} {n : ℕ}
        → Run app c d n
        → (e : Config Float W) × (k : ℕ) × Driven d e k × (n + k ≤ total c.1) × All IsAnswered e.1
    Run-complete {c = c} {d = d} {n = n} r =
        let rest = complete (total d.1) d.0 d.1 (omega arith) in
        (rest.end, rest.turns, rest.way, omega (arith, Run-total app r, rest.within), rest.answered)
