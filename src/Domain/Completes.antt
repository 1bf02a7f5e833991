-- ===== src/Domain/Completes.antt =====
-- Every request that is sent is completed, and has one result.
use mathlib.Core.List.{Perm, append_assoc, append-nil, perm_middle}
use mathlib.Core.List.Perm
use dancex.Prelude.{
  ℕ, suc, ◌%◌, ◌<◌, List, [], ◌∷◌, ◌++◌, Option, none, some, true, false, if◌then◌else◌, ◌≡◌, refl,
  sym, ap, ◌∙◌, subst, arith, map, length, length-append, length-map, length-Perm, Option-cases,
  inl, inr,
}
use dancex.Events.Counter.{u32_mod, all_completed, increment_exec_count}
use dancex.Events.Completion.{Completion, accept, update, completed_events, decrement-exec_count}
use dancex.Domain.Requests.{
  Fault, Request, Answer, Orb, Sending, Handler, send_one, send_all, wait_on_completion, idle,
  collect,
}

-- `n` futures are pending, and those in `done` are completed.
unfoldable Holds : {F : Type 0} → ℕ → List F → Completion F → Type 0
Holds n done c = (c.counter.exec_count ≡ n % u32_mod) × (c.completed ≡ done)

module _ {F : Type 0} where
  accept-Holds :
      (n : ℕ) (done : List F) (f : F) (c : Completion F)
      → Holds n done c
      → Holds (suc n) done (accept false f c)
  unfolding Holds accept increment_exec_count
  accept-Holds n done f c h = ((let e = h.0 in omega arith), h.1)

  update-Holds :
      (n : ℕ) (done : List F) (f : F) (c : Completion F)
      → Holds (suc n) done c
      → Holds n (done ++ f ∷ []) (update f c)
  unfolding Holds update
  update-Holds n done f c h = (
    (let e = h.0 in let d = decrement-exec_count c.counter in omega arith),
    ap (λ l. l ++ f ∷ []) h.1,
  )

  waiting :
      (n : ℕ) (done : List F) (c : Completion F)
      → suc n < u32_mod
      → Holds (suc n) done c
      → all_completed c.counter ≡ false
  unfolding Holds all_completed
  waiting n done c b h =
      let e : c.counter.exec_count ≡ suc n = (let f = h.0 in omega arith) in rw e (ground arith)

  finished : (done : List F) (c : Completion F) → Holds 0 done c → all_completed c.counter ≡ true
  unfolding Holds all_completed
  finished done c h = rw h.0 refl

-- The documented behaviour of asynchronous requests: each pending one is replied to, once.
abbrev pub Replies : {M Ref Conn W : Type 0} → Orb M Ref Conn W → Type 0
Replies {M} {Ref} {Conn} {W} orb =
    (pending : List (Request M Ref)) (w : W)
    → Perm (map (λ a. a.0) (orb.perform_work pending w).0) pending

-- The requests sent one after the other, by what the ORB throws for each: those that are refused, with
-- the exceptions, those that are pending, and the world behind them.
module _ {M Ref Conn W : Type 0} (orb : Orb M Ref Conn W) where
  abbrev pub refusals_of : List (Request M Ref) → W → List (Request M Ref × Fault)
  refusals_of [] w = []
  refusals_of (request ∷ requests) w =
      let (thrown, w') = orb.send request.message request.target w in
      let rest = refusals_of requests w' in
      elim thrown [ none ↦ rest | some ex ↦ (request, ex) ∷ rest ]

  abbrev pub pending_of : List (Request M Ref) → W → List (Request M Ref)
  pending_of [] w = []
  pending_of (request ∷ requests) w =
      let (thrown, w') = orb.send request.message request.target w in
      let rest = pending_of requests w' in elim thrown [ none ↦ request ∷ rest | some ex ↦ rest ]

  abbrev pub world_of : List (Request M Ref) → W → W
  world_of [] w = w
  world_of (request ∷ requests) w = world_of requests (orb.send request.message request.target w).1

  -- The replies to pending requests in the order in which the ORB hands them over.
  abbrev pub arrived : List (Request M Ref) → W → List (Request M Ref × Answer Ref Conn)
  arrived [] w = []
  arrived (request ∷ pending) w = (orb.perform_work (request ∷ pending) w).0

  abbrev pub replies_of : List (Request M Ref) → W → List (Request M Ref × Answer Ref Conn)
  replies_of requests w = arrived (pending_of requests w) (world_of requests w)

  sent-Perm :
      (requests : List (Request M Ref)) (w : W)
      → Perm (map (λ a. a.0) (refusals_of requests w) ++ pending_of requests w) requests
  sent-Perm [] w = Perm.nil
  sent-Perm (request ∷ requests) w =
      let (thrown, w') = orb.send request.message request.target w in
      elim (Option-cases (orb.send request.message request.target w).0) [
        | inl e ↦
            rw (e, refusals_of, pending_of)
              (Perm.trans
                (perm_middle (map (λ a. a.0) (refusals_of requests w')) (pending_of requests w'))
                (Perm.cons request (sent-Perm requests w')))
        | inr (ex, e) ↦ rw (e, refusals_of, pending_of) (Perm.cons request (sent-Perm requests w'))
      ]

  arrived-Perm :
      (pending : List (Request M Ref)) (w : W)
      → Replies orb
      → Perm (map (λ a. a.0) (arrived pending w)) pending
  arrived-Perm [] w r = Perm.nil
  arrived-Perm (request ∷ pending) w r = r (request ∷ pending) w

-- The result of a request that was refused, and of one that was replied to.
module _ {M Ref Conn F : Type 0} (handler : Handler F M Ref Conn) where
  abbrev pub refusal : Request M Ref × Fault → F
  refusal (request, ex) = handler.refused request ex

  abbrev pub result : Request M Ref × Answer Ref Conn → F
  result (request, answer) = handler.reply request answer

module _ {M Ref Conn W F : Type 0} (orb : Orb M Ref Conn W) (handler : Handler F M Ref Conn) where
  -- What the sending of requests leaves: the refused ones are completed, the others pending.
  unfoldable Sent : List F → List (Request M Ref) → Sending F M Ref W → Sending F M Ref W → Type 0
  Sent done requests s t =
      Holds (length t.pending) (done ++ map (refusal handler) (refusals_of orb requests s.world))
        t.completion
      × (t.pending ≡ s.pending ++ pending_of orb requests s.world)
      × (t.world ≡ world_of orb requests s.world)

  send_all-Sent :
      (done : List F) (requests : List (Request M Ref)) (s : Sending F M Ref W)
      → Holds (length s.pending) done s.completion
      → Sent done requests s (send_all orb handler requests s)
  unfolding send_all send_one Sent Holds
  send_all-Sent done [] s h = (
    subst (λ l. Holds (length s.pending) l s.completion) (sym (append-nil done)) h,
    sym (append-nil s.pending),
    refl,
  )
  send_all-Sent done (request ∷ requests) s h =
      let (thrown, w) = orb.send request.message request.target s.world in
      let accepted = accept-Holds (length s.pending) done handler.unset s.completion h in
      elim (Option-cases (orb.send request.message request.target s.world).0) [
        | inl e ↦
            let next : Sending F M Ref W = record {
              completion = accept false handler.unset s.completion;
              pending = s.pending ++ request ∷ [];
              world = w;
            } in
            let (held, pending, world) = send_all-Sent done requests next (
              subst (λ n. Holds n done (accept false handler.unset s.completion))
                (omega (arith, length-append s.pending (request ∷ []))) accepted) in
            rw (e, send_all, send_one, refusals_of, pending_of)
              (
                held,
                pending ∙ append_assoc s.pending (request ∷ []) (pending_of orb requests w),
                world,
              )
        | inr (ex, e) ↦
            let result = handler.refused request ex in
            let completed = update result (accept false handler.unset s.completion) in
            let next : Sending F M Ref W = record {
              completion = completed;
              pending = s.pending;
              world = w;
            } in
            let (held, pending, world) =
              send_all-Sent (done ++ result ∷ []) requests next
                (update-Holds (length s.pending) done result _ accepted) in
            rw (e, send_all, send_one, refusals_of, pending_of)
              (
                subst
                    (λ l.
                      Holds (length (send_all orb handler requests next).pending) l
                        (send_all orb handler requests next).completion)
                    (append_assoc done (result ∷ [])
                      (map (refusal handler) (refusals_of orb requests w)))
                    held,
                pending,
                world,
              )
      ]

  wait-completes :
      (replies : List (Request M Ref × Answer Ref Conn)) (done : List F) (c : Completion F)
      → length replies < u32_mod
      → Holds (length replies) done c
      → (final : Completion F) × (wait_on_completion orb handler replies c ≡ some final)
        × (final.completed ≡ done ++ map (result handler) replies)
  unfolding wait_on_completion Holds
  wait-completes [] done c b h =
      (c, rw (finished done c h, wait_on_completion) refl, h.1 ∙ sym (append-nil done))
  wait-completes ((request, answer) ∷ replies) done c b h =
      let (final, e, l) =
        wait-completes replies (done ++ handler.reply request answer ∷ [])
          (update (handler.reply request answer) c) (omega arith)
          (update-Holds (length replies) done (handler.reply request answer) c h) in
      (
        final,
        rw (waiting (length replies) done c b h, wait_on_completion) e,
        l ∙ append_assoc done (handler.reply request answer ∷ []) (map (result handler) replies),
      )

  asked :
      (done : List F) (pending : List (Request M Ref)) (c : Completion F) (w : W)
      → length pending < u32_mod
      → Holds (length pending) done c
      → (if all_completed c.counter then ([], w) else orb.perform_work pending w).0
        ≡ arrived orb pending w
  asked done [] c w b h = rw (finished done c h) refl
  asked done (request ∷ pending) c w b h = rw (waiting (length pending) done c b h) refl

  -- How the requests have ended: those that the ORB refuses and those that it replies to.
  pub record Ended (requests : List (Request M Ref)) (w : W) (results : Option (List F))
      : Type 0 where
    pub results_eq :
        results
        ≡ some (
            map (refusal handler) (refusals_of orb requests w)
            ++ map (result handler) (replies_of orb requests w))
    pub once :
        Perm
          (map (λ a. a.0) (refusals_of orb requests w)
            ++ map (λ a. a.0) (replies_of orb requests w))
          requests

  -- Where each pending request is replied to once, in any order, and there are fewer than 2 ^ 32
  -- requests, sending them one after the other and waiting for all ends: the results are those of
  -- the requests for which sending throws, in order, with what it throws, and behind them those
  -- of the replies that the ORB hands over for the others, in the order in which it does; the
  -- requests of both are all the requests, each once.
  pub collect-Ended :
      (requests : List (Request M Ref)) (w : W)
      → Replies orb
      → length requests < u32_mod
      → Ended requests w
          (collect orb handler (send_all orb handler requests (idle orb handler w))).0
  unfolding collect completed_events Sent Holds all_completed
  collect-Ended requests w replies b =
      let s = send_all orb handler requests (idle orb handler w) in
      let (h, p, same) = send_all-Sent [] requests (idle orb handler w) (refl, refl) in
      let q = sent-Perm orb requests w in
      let r = arrived-Perm orb (pending_of orb requests w) (world_of orb requests w) replies in
      let size =
        length-append (map (λ a. a.0) (refusals_of orb requests w)) (pending_of orb requests w) in
      let all = length-Perm q in
      let few : length (pending_of orb requests w) < u32_mod = omega (arith, size, all) in
      let n = length-Perm r in
      let m = length-map (λ a. a.0) (replies_of orb requests w) in
      let few_replies : length (replies_of orb requests w) < u32_mod = omega (arith, few, n, m) in
      let held =
        subst
          (λ l. Holds (length l) (map (refusal handler) (refusals_of orb requests w)) s.completion)
          p h in
      let counted : length (pending_of orb requests w) ≡ length (replies_of orb requests w) =
        omega (arith, n, m) in
      let came : (if all_completed s.completion.counter
            then ([], s.world)
            else orb.perform_work s.pending s.world).0
          ≡ replies_of orb requests w =
        asked (map (refusal handler) (refusals_of orb requests w)) s.pending s.completion s.world
          (subst (λ l. length l < u32_mod) (sym p) few) h
        ∙ ap (λ l. arrived orb l s.world) p
        ∙ ap (arrived orb (pending_of orb requests w)) same in
      let (final, e, l) =
        wait-completes (replies_of orb requests w)
          (map (refusal handler) (refusals_of orb requests w)) s.completion few_replies
          (subst (λ i. Holds i (map (refusal handler) (refusals_of orb requests w)) s.completion)
            counted held) in
      record {
        results_eq = rw (came, e, collect) (ap some l);
        once = Perm.trans (Perm.append_left (map (λ a. a.0) (refusals_of orb requests w)) r) q;
      }
