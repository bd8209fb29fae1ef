-- ===== src/RawKv/Single/Served.antt =====
-- A task on one key, from the lookup of its region to the answer: an OK is a store's.
use dingo_sdk.Base.{
  ℕ, suc, ◌≤◌, true, false, Option, none, some, ◌≡◌, ◌⊎◌, refl, sym, ◌∙◌, subst, Bool-cases, inl,
  inr, arith,
}
use dingo_sdk.Key.{Key, is_empty}
use dingo_sdk.Outcome.{done, check_some, Returns, Returns->>=, ◌>>=◌}
use dingo_sdk.Status.{Status, Result, success, failure, is_ok}
use dingo_sdk.Region.{RegionPtr}
use dingo_sdk.MetaCache.{Cache}
use dingo_sdk.MetaCache.Lookup.{covers}
use dingo_sdk.MetaCache.Found.{Answers}
use dingo_sdk.Rpc.Store.{Controller, reset_region}
use dingo_sdk.Rpc.Store.Sound.{Kept}
use dingo_sdk.Rpc.Store.Attempt.{FairTo, succeeds}
use dingo_sdk.Rpc.Store.Ends.{Ends, do_async_call-Ends}
use dingo_sdk.Rpc.Store.Lookup.{Peers, Reachable, Gives, lookup_region_by_key-Reachable}
use dingo_sdk.RawKv.{Task, wants_retry, run, async_run}
use dingo_sdk.RawKv
use dingo_sdk.RawKv.Ends.{Does, run-Ends}
use dingo_sdk.RawKv.Single.{
  Call, kv_get, kv_delete, kv_put, kv_put_if_absent, kv_compare_and_set, key_of, Response, Single,
  World, take_response, rpc_callback, call_region, do_async, post_process, finish, run_single,
}

-- The coordinator and the stores answer as they should for this key.
pub record Sane (w : World) (key : Key) : Type 0 where
  pub answers : (n : ℕ) → Answers key (w.coordinator n key)
  pub peers : (n : ℕ) → Peers (w.coordinator n key)
  pub fair : (r : RegionPtr) → FairTo w.number (w.net r) r

-- The task is on this call, its cache is kept well, and its controller has retries left.
pub record Going (w : World) (call : Call) (t : Single) : Type 0 where
  pub same : t.call ≡ call
  pub kept : Kept t.controller.cache
  pub left : t.controller.rpc_retry_times ≤ w.store_rpc_max_retry

-- What the task keeps of a response.
abbrev pub Taken : Call → Response → Single → Type 0
Taken (kv_get key) r t = t.result ≡ r.value
Taken (kv_delete key) r t = Unit
Taken (kv_put key value) r t = Unit
Taken (kv_put_if_absent key value) r t = t.out_state ≡ r.key_state
Taken (kv_compare_and_set key value expected) r t = t.out_state ≡ r.key_state

-- What the caller sees of a response: nothing of a value that is empty.
abbrev pub Delivered : Call → Response → Single → Type 0
Delivered (kv_get key) r t = (is_empty r.value ≡ true) ⊎ (t.out_value ≡ r.value)
Delivered (kv_delete key) r t = Unit
Delivered (kv_put key value) r t = Unit
Delivered (kv_put_if_absent key value) r t = t.out_state ≡ r.key_state
Delivered (kv_compare_and_set key value expected) r t = t.out_state ≡ r.key_state

-- The region of the last request has the key, and its store did what was asked.
pub record Answered (w : World) (call : Call) (c : Controller) : Type 0 where
  pub has_key : covers (key_of call) c.region ≡ true
  pub honest :
      (n : ℕ) × (c.rpc.sent ≡ suc n)
      × (succeeds w.number (w.net c.region) (w.net c.region n c.rpc.end_point) ≡ true)

abbrev pub Served : World → Call → Single → Type 0
Served w call t =
    Answered w call t.controller
    × Taken call (w.response t.controller.region t.controller.rpc.sent call) t

take_response-Taken : (k : Call) (r : Response) (t : Single) → Taken k r (take_response k r t)
unfolding take_response
take_response-Taken (kv_get key) r t = refl
take_response-Taken (kv_delete key) r t = tt
take_response-Taken (kv_put key value) r t = tt
take_response-Taken (kv_put_if_absent key value) r t = refl
take_response-Taken (kv_compare_and_set key value expected) r t = refl

take_response_same :
    (k : Call) (r : Response) (t : Single)
    → ((take_response k r t).call ≡ t.call) × ((take_response k r t).controller ≡ t.controller)
unfolding take_response
take_response_same (kv_get key) r t = (refl, refl)
take_response_same (kv_delete key) r t = (refl, refl)
take_response_same (kv_put key value) r t = (refl, refl)
take_response_same (kv_put_if_absent key value) r t = (refl, refl)
take_response_same (kv_compare_and_set key value expected) r t = (refl, refl)

post_process-Delivered :
    (k : Call) (r : Response) (t : Single) → Taken k r t → Delivered k r (post_process t)
unfolding post_process
post_process-Delivered (kv_get key) r t e = elim (Bool-cases (is_empty t.result)) [
  | inl y ↦ inl (subst (λ v. is_empty v ≡ true) e y)
  | inr n ↦ inr (rw (n) e)
]
post_process-Delivered (kv_delete key) r t e = tt
post_process-Delivered (kv_put key value) r t e = tt
post_process-Delivered (kv_put_if_absent key value) r t e = ground (arith, e)
post_process-Delivered (kv_compare_and_set key value expected) r t e = ground (arith, e)

post_process_same : (t : Single) → (post_process t).controller ≡ t.controller
unfolding post_process
post_process_same t = elim (Bool-cases (is_empty t.result)) [
  | inl y ↦ rw (y) refl
  | inr n ↦ rw (n) refl
]

module _ (w : World) (call : Call) where
  -- One run keeps the task going, and an OK is that of a store.
  abbrev pub DoesServe : Status × Single → Type 0
  DoesServe = Does w.number (do_async w) w.raw_kv_max_retry (Going w call) (Served w call)

  taken-Served :
      (t : Single)
      → Going w call t
      → Answered w call t.controller
      → DoesServe (
        t.controller.status,
        take_response t.call (w.response t.controller.region t.controller.rpc.sent t.call) t,
      )
  taken-Served t g a =
      let c : Controller = t.controller in
      let (p, q) = take_response_same t.call (w.response c.region c.rpc.sent t.call) t in
      let k : Taken call (w.response c.region c.rpc.sent call)
          (take_response t.call (w.response c.region c.rpc.sent t.call) t) =
        subst
          (λ k.
            Taken call (w.response c.region c.rpc.sent call)
              (take_response k (w.response c.region c.rpc.sent k) t))
          (sym g.same) (take_response-Taken call _ t) in
      (
        record {
          same = p ∙ g.same;
          kept = subst (λ c. Kept c.cache) (sym q) g.kept;
          left = subst (λ c. c.rpc_retry_times ≤ w.store_rpc_max_retry) (sym q) g.left;
        },
        λ z. (
          subst (Answered w call) (sym q) a,
          subst
              (λ c. Taken call (w.response c.region c.rpc.sent call) (
                take_response t.call (w.response t.controller.region t.controller.rpc.sent t.call)
                  t))
              (sym q) k,
        ),
      )

  -- The callback after the controller has ended.
  rpc_callback-Does :
      (t : Single)
      → Going w call t
      → (is_ok t.controller.status ≡ true → Answered w call t.controller)
      → Returns (rpc_callback w t) DoesServe
  unfolding rpc_callback
  rpc_callback-Does t g a = elim (Bool-cases (is_ok t.controller.status)) [
    | inl y ↦ rw (y) ((taken-Served t g (a y)).0, λ z. (taken-Served t g (a y)).1 y)
    | inr n ↦ rw (n) (g, λ z. cc)
  ]

  ended-Does :
      (region : RegionPtr) (t : Single)
      → Going w call t
      → covers (key_of call) region ≡ true
      → (o : Option Controller)
      → Ends w.number (w.net region) w.store_rpc_max_retry (reset_region region t.controller) o
      → Returns (check_some o >>= λ c. rpc_callback w (record t { controller = c })) DoesServe
  ended-Does region t g r none e = e
  ended-Does region t g r (some c) e =
      rpc_callback-Does (record t { controller = c })
        (record { same = g.same; kept = e.sound.kept; left = e.bounded })
        λ z.
          let h = e.honest z in
          record {
            has_key = subst (λ k. covers (key_of call) k ≡ true) (sym (same_region e.region)) r;
            honest = (
              h.0,
              h.1,
              subst (λ k. succeeds w.number (w.net k) (w.net k h.0 c.rpc.end_point) ≡ true)
                  (sym (same_region e.region)) h.2,
            );
          }
    where
      same_region : c.region ≡ (reset_region region t.controller).region → c.region ≡ region
      same_region e = unfold reset_region in e

  call_region-Does :
      (region : RegionPtr) (t : Single)
      → Sane w (key_of call)
      → Going w call t
      → Reachable (key_of call) region t.controller.cache
      → Returns (call_region w region t) DoesServe
  unfolding call_region reset_region
  call_region-Does region t s g r =
      Returns->>=
        (Ends w.number (w.net region) w.store_rpc_max_retry (reset_region region t.controller))
        DoesServe _ _
        (do_async_call-Ends w.number (w.net region) w.store_rpc_max_retry
          (suc w.store_rpc_max_retry) (reset_region region t.controller) (s.fair region) r.0 g.left
          (omega arith))
        (ended-Does region t g r.1)

  -- What the lookup leaves in the task.
  looked : Cache → Single → Single
  looked c t = record t { lookups = suc t.lookups; controller = record t.controller { cache = c } }

  looked-Does :
      (t : Single) (x : Result RegionPtr × Cache)
      → Sane w (key_of call)
      → Going w call t
      → Gives (key_of t.call) x
      → Returns
          (elim x.0 [
            | failure s ↦ done (s, looked x.1 t)
            | success region ↦ call_region w region (looked x.1 t)
          ])
          DoesServe
  unfolding looked
  looked-Does t (failure e, c) s g h =
      (record { same = g.same; kept = h.1; left = g.left }, λ z. cc (h.0, z))
  looked-Does t (success r, c) s g h =
      call_region-Does r (looked c t) s (record { same = g.same; kept = h.0.kept; left = g.left })
        (subst (λ k. Reachable (key_of k) r c) g.same h)

  do_async-Does :
      (t : Single)
      → Sane w (key_of call)
      → is_empty (key_of call) ≡ false
      → Going w call t
      → Returns (do_async w t) DoesServe
  unfolding do_async looked
  do_async-Does t s n g =
      let u : Sane w (key_of t.call) = subst (λ k. Sane w (key_of k)) (sym g.same) s in
      Returns->>= (Gives (key_of t.call)) DoesServe _ _
        (lookup_region_by_key-Reachable (key_of t.call) _ t.controller.cache
          (subst (λ k. is_empty (key_of k) ≡ false) (sym g.same) n) (u.answers t.lookups)
          (u.peers t.lookups) g.kept)
        λ x h. looked-Does t x s g h

  -- What the task's caller has: its cache is kept well, the status is not one that is to be retried,
  -- and an OK is that of a store, with what is taken from the response.
  pub record Finished (r : Status × Single) : Type 0 where
    pub kept : Kept r.1.controller.cache
    pub settled : wants_retry w.number r.0 ≡ false
    pub answered : is_ok r.0 ≡ true → Answered w call r.1.controller
    pub delivered :
        is_ok r.0 ≡ true
        → Delivered call (w.response r.1.controller.region r.1.controller.rpc.sent call) r.1

  finish-Finished :
      (o : Option (Task Single))
      → RawKv.Ends.Ends w.number (do_async w) w.raw_kv_max_retry (Going w call) (Served w call) o
      → Returns (finish o) Finished
  finish-Finished none e = e
  finish-Finished (some t) e = record {
    kept = subst (λ c. Kept c.cache) (sym (post_process_same t.inner)) e.kept.kept;
    settled = e.settled;
    answered = λ z. subst (Answered w call) (sym (post_process_same t.inner)) (e.result z).0;
    delivered = λ z.
        subst (λ c. Delivered call (w.response c.region c.rpc.sent call) (post_process t.inner))
          (sym (post_process_same t.inner)) (post_process-Delivered call _ t.inner (e.result z).1);
  }

  -- A task on a key that is not empty returns, when lookups are answered for that key, each region in
  -- such an answer has a replica and all its replicas are at valid end points, the stores send errors that
  -- name no place without a host and describe their regions completely, the cache is kept well and the
  -- controller has not retried more than the maximum. No CHECK fails; the cache is kept well; the status is
  -- not one that is to be retried; and if it is OK, then the region of the last request has the key, its
  -- store answered that request with success, and the caller has what the response says, except for a value
  -- that is empty.
  pub run_single-Finished :
      (t : Single)
      → Sane w (key_of call)
      → is_empty (key_of call) ≡ false
      → Going w call t
      → Returns (run_single w t) Finished
  unfolding run_single async_run
  run_single-Finished t s n g =
      Returns->>=
        (RawKv.Ends.Ends w.number (do_async w) w.raw_kv_max_retry (Going w call) (Served w call))
        Finished _ _
        (run-Ends w.number (do_async w) w.raw_kv_max_retry (Going w call) (Served w call)
          (λ x h. do_async-Does x s n h) (suc w.raw_kv_max_retry) _ g (omega arith) (omega arith))
        finish-Finished
