-- ===== src/ThreadPool/Starting/Joined.antt =====
-- include/kelcoro/thread_pool.hpp: a worker that the failed constructor of `thread_pool` joins.
use kelcoro.Base.{
  ℕ, zero, suc, ◌+◌, ◌≡◌, ◌≢◌, refl, sym, ◌∙◌, subst, Bool, true, false, some, List, [], ◌∷◌, ◌++◌,
  get_elem?, replicate, arith, inl, inr, get_elem?-replicate, get_elem?_behind, set_behind,
  replicate_behind, get_elem?_split,
}
use kelcoro.ThreadPool.Stopping.{
  Entry, Effect, Phase, Thread, new_thread, ended, is_ended, work_step,
}
use kelcoro.ThreadPool.Starting.{
  no_thread, unwinds, joins, Pool, become, join, start_step, Step, works, constructs, Ends, goes_on,
}

-- Some threads are none, one is being joined, and the others have been started or not.
abbrev pub others : ℕ → ℕ → List Thread
others j k = replicate j new_thread ++ replicate k no_thread

-- A worker with nothing to do, or none at all, takes no step.
pub idle_others :
    (i j k : ℕ) (t : Thread) (r : Effect × List Entry × Phase)
    → get_elem? (others j k) i ≡ some t
    → work_step t.queue t.phase ≢ some r
unfolding work_step
idle_others i j k t r there e =
    elim (get_elem?_split j i new_thread t (replicate k no_thread) there) [
      | inl new ↦ ground (arith, rw new at e)
      | inr (m, at, e') ↦ ground (arith, rw (get_elem?-replicate k m no_thread t e') at e)
    ]

pub idle_shape :
    (i m j k : ℕ) (t : Thread) (r : Effect × List Entry × Phase)
    → get_elem? (replicate m no_thread ++ others j k) i ≡ some t
    → work_step t.queue t.phase ≢ some r
unfolding work_step
idle_shape i m j k t r there e = elim (get_elem?_split m i no_thread t (others j k) there) [
  | inl none_there ↦ ground (arith, rw none_there at e)
  | inr (l, at, e') ↦ idle_others l j k t r e' e
]

-- A pool whose workers take no step, with what the constructor's next step comes to.
pub calm :
    (n : ℕ) (p q q' : Pool)
    → ((i : ℕ) (t : Thread) (r : Effect × List Entry × Phase)
        → get_elem? p.threads i ≡ some t
        → work_step t.queue t.phase ≢ some r)
    → start_step false p p.stage ≡ some q
    → start_step true p p.stage ≡ some q'
    → Ends n q
    → Ends n q'
    → Ends n p
calm n p q q' idle e e' ends ends' = goes_on (q, constructs false e) next
  where
    next : (z : Pool) → Step p z → Ends n z
    next z (works i t r there w) = absurd (idle i t r there w)
    next z (constructs true w) = let h : q' ≡ z = cc in subst (Ends n) h ends'
    next z (constructs false w) = let h : q ≡ z = cc in subst (Ends n) h ends

abbrev pub joining : ℕ → Thread → ℕ → ℕ → Pool
joining i t j k = record { threads = replicate i no_thread ++ t ∷ others j k; stage = joins i }

abbrev after_work : Thread → Effect × List Entry × Phase → Thread
after_work t r = record t { queue = r.1; phase = r.2 }

-- A worker that is being joined goes on.
pub passing :
    (n i j k : ℕ) (t : Thread) (r : Effect × List Entry × Phase)
    → is_ended t.phase ≡ false
    → work_step t.queue t.phase ≡ some r
    → Ends n (joining i (after_work t r) j k)
    → Ends n (joining i t j k)
unfolding start_step
passing n i j k t r running e ends =
    goes_on (_, works i t r (get_elem?_behind i no_thread t (others j k)) e) next
  where
    ends_moved : Ends n (become (joining i t j k) i (after_work t r) (joins i))
    ends_moved = rw (set_behind i no_thread t (after_work t r) (others j k)) ends

    found :
        (m l : ℕ) (u : Thread) (r' : Effect × List Entry × Phase)
        → l ≡ i + m
        → get_elem? (t ∷ others j k) m ≡ some u
        → work_step u.queue u.phase ≡ some r'
        → Ends n (become (joining i t j k) l (after_work u r') (joins i))
    found zero l u r' at here w =
        let same : t ≡ u = cc in
        let there : i ≡ l = omega (arith, at) in
        let e' : some r ≡ some r' = sym e ∙ rw (sym same) at w in
        let result : r ≡ r' = cc in
        subst (λ a. Ends n (become (joining i t j k) a (after_work u r') (joins i))) there
          (subst (λ a. Ends n (become (joining i t j k) i (after_work a r') (joins i))) same
            (subst (λ a. Ends n (become (joining i t j k) i (after_work t a) (joins i))) result
              ends_moved))
    found (suc m) l u r' at here w = absurd (idle_others m j k u r' here w)

    next : (z : Pool) → Step (joining i t j k) z → Ends n z
    next z (works l u r' there w) = elim (get_elem?_split i l no_thread u (t ∷ others j k) there) [
      | inl none_there ↦ absurd (idle_shape 0 1 0 0 u r' (rw none_there refl) w)
      | inr (m, at, e') ↦ found m l u r' at e' w
    ]
    next z (constructs throws w) =
        ground
          (arith, rw (get_elem?_behind i no_thread t (others j k), start_step, join, running) at w)

abbrev finished : Thread
finished = record { queue = []; phase = ended; joinable = true }

-- A worker that has ended is joined.
pub over :
    (n i j k : ℕ)
    → Ends n
        (record { threads = replicate (suc i) no_thread ++ others j k; stage = unwinds (suc i) })
    → Ends n (joining i finished j k)
unfolding start_step work_step is_ended
over n i j k ends = calm n (joining i finished j k) _ _ idle (moves false) (moves true) ends' ends'
  where
    ends' : Ends n (record {
      threads = replicate i no_thread ++ no_thread ∷ others j k;
      stage = unwinds (suc i);
    })
    ends' = rw (replicate_behind i no_thread (others j k)) ends

    moves :
        (throws : Bool)
        → start_step throws (joining i finished j k) (joins i)
          ≡ some (record {
            threads = replicate i no_thread ++ no_thread ∷ others j k;
            stage = unwinds (suc i);
          })
    moves throws =
        rw
          (
            get_elem?_behind i no_thread finished (others j k),
            start_step,
            join,
            set_behind i no_thread finished no_thread (others j k),
          )
          refl

    idle :
        (l : ℕ) (u : Thread) (r : Effect × List Entry × Phase)
        → get_elem? (replicate i no_thread ++ finished ∷ others j k) l ≡ some u
        → work_step u.queue u.phase ≢ some r
    idle l u r there w = elim (get_elem?_split i l no_thread u (finished ∷ others j k) there) [
      | inl none_there ↦ idle_shape 0 1 0 0 u r (rw none_there refl) w
      | inr (m, at, e') ↦ behind m u r e' w
    ]
      where
        behind :
            (m : ℕ) (u : Thread) (r : Effect × List Entry × Phase)
            → get_elem? (finished ∷ others j k) m ≡ some u
            → work_step u.queue u.phase ≢ some r
        behind zero u r here w = let same : finished ≡ u = cc in ground (arith, rw (sym same) at w)
        behind (suc m) u r here w = idle_others m j k u r here w
