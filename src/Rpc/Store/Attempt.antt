-- ===== src/Rpc/Store/Attempt.antt =====
-- One attempt of a request to a region: what a reply makes of the controller and the cache.
use dingo_sdk.Base.{
  ℕ, suc, ◌==◌, ==_refl, ◌&&◌, ◌%◌, ◌^◌, Bool, true, false, Option, none, some, ◌≡◌, refl, sym, ap,
  subst, ◌∙◌, Bool-cases, inl, inr, arith,
}
use dingo_sdk.Outcome.{done, Returns, Returns->>=, Returns-map}
use dingo_sdk.Status.{Status, incomplete, is_ok}
use dingo_sdk.Region.{EndPoint, is_valid, RegionPtr, Roles, mark_leader, mark_follower, get_leader}
use dingo_sdk.Region.Replicas.{
  Valid, HasReplicas, get_leader-Valid, mark_leader-HasReplicas, mark_follower-HasReplicas,
  leader_addr-mark_leader,
}
use dingo_sdk.MetaCache.{Cache, clear_region}
use dingo_sdk.Rpc
use dingo_sdk.Rpc.{ErrorCode, Location, location_to_end_point}
use dingo_sdk.Rpc.Coordinator.Members.{Located}
use dingo_sdk.Rpc.Store.{
  Error, Reply, Controller, StoreRegionInfo, prepare_rpc, need_pick_leader, set_roles, roles_of,
  send_store_rpc, not_leader_at, learn_region, on_error, is_cleared, status_for,
  send_store_rpc_call_back, attempt, reset_region,
}
use dingo_sdk.Rpc.Store.Sound.{
  Sound, set_roles-Sound, clear_region-Sound, Describes, learn_region-Sound,
}

roles_of-set_roles : (r : RegionPtr) (x : Roles) (c : Cache) → roles_of r (set_roles r x c) ≡ x
unfolding set_roles
roles_of-set_roles r x c = rw (==_refl r.addr) refl

own-Sound :
    (r : RegionPtr) (x : Roles) (c : Cache) → Sound r c → HasReplicas x → Sound r (set_roles r x c)
own-Sound r x c s h = set_roles-Sound r c s r x h

mark_leader-Sound :
    (r : RegionPtr) (e : EndPoint) (c : Cache)
    → Sound r c
    → Sound r (set_roles r (mark_leader e (roles_of r c)) c)
mark_leader-Sound r e c s = own-Sound r _ c s (mark_leader-HasReplicas e (roles_of r c) s.replicas)

mark_follower-Sound :
    (r : RegionPtr) (e : EndPoint) (c : Cache)
    → Sound r c
    → Sound r (set_roles r (mark_follower e (roles_of r c)) c)
mark_follower-Sound r e c s =
    own-Sound r _ c s (mark_follower-HasReplicas e (roles_of r c) s.replicas)

not_leader_at-Sound :
    (errno : ℕ) (o : Option Location) (r : RegionPtr) (c : Cache)
    → Located o
    → Sound r c
    → Returns (not_leader_at errno o r c) (λ x. Sound r x.1 × (is_ok x.0 ≡ false))
unfolding not_leader_at location_to_end_point
not_leader_at-Sound errno none r c l s = (s, refl)
not_leader_at-Sound errno (some l) r c n s =
    rw (n) (elim (Bool-cases (is_valid (record { host = l.host; port = l.port % 2 ^ 16 }))) [
      | inl v ↦ rw (v) (mark_leader-Sound r _ c s, refl)
      | inr v ↦ rw (v) (s, refl)
    ])

module _ (number : ErrorCode → ℕ) (net : ℕ → EndPoint → Reply) where
  -- The reply is that of a store which did what was asked.
  abbrev pub succeeds : Reply → Bool
  succeeds r = is_ok r.status && r.error.errcode == number Rpc.no_error

  -- The error names no place without a host, and an error of the region's version describes the region
  -- completely or not at all.
  abbrev pub Fair : RegionPtr → Error → Type 0
  Fair r err =
      Located err.leader_location
      × ((err.errcode == number Rpc.region_version) ≡ true
          → (info : StoreRegionInfo) → err.store_region_info ≡ some info
          → Describes r info)

  -- A success leaves the cache as it was.
  Answered : Error → RegionPtr → Cache → Status × Cache → Type 0
  Answered err r c x =
      Sound r x.1 × (is_ok x.0 ≡ true → ((err.errcode == number Rpc.no_error) ≡ true) × (x.1 ≡ c))

  not-is_ok-status_for : (n : ℕ) → is_ok (status_for number n) ≡ false
  unfolding status_for
  not-is_ok-status_for n = ground arith

  on_error-Answered :
      (err : Error) (e : EndPoint) (r : RegionPtr) (c : Cache)
      → Fair r err
      → Sound r c
      → Returns (on_error number err e r c) (Answered err r c)
  unfolding on_error Answered
  on_error-Answered err e r c f s = elim (Bool-cases (err.errcode == number Rpc.no_error)) [
    | inl y ↦ rw (y) (s, λ z. (y, refl))
    | inr n ↦ rw (n) (elim (Bool-cases (err.errcode == number Rpc.raft_not_leader)) [
      | inl y ↦ rw (y) (
          Returns-map _ _ (not_leader_at err.errcode err.leader_location r _)
            (λ x h. (h.0, λ z. cc (h.1, z)))
            (not_leader_at-Sound err.errcode err.leader_location r _ f.0
              (mark_follower-Sound r e c s)))
      | inr m ↦ rw (m) (elim (Bool-cases (err.errcode == number Rpc.region_version)) [
        | inl y ↦ rw (y) (
            Returns->>= (Sound r) _ (clear_region r c) _ (clear_region-Sound r c s r) λ d t.
              Returns->>= (Sound r) _ (learn_region err.store_region_info r d) _
                (learn_region-Sound err.store_region_info r d (f.1 y) t) λ x u. (u, λ z. cc))
        | inr k ↦ rw (k) (elim (Bool-cases (is_cleared number err.errcode)) [
          | inl y ↦ rw (y) (
              Returns->>= (Sound r) _ (clear_region r c) _ (clear_region-Sound r c s r)
                λ d t. (t, λ z. cc))
          | inr j ↦ rw (j) (s, λ z. cc (not-is_ok-status_for err.errcode, z))
        ])
      ])
    ])
  ]

  -- What the reply to the request `c` has made of it.
  record Replied (r : Reply) (c d : Controller) : Type 0 where
    rpc : d.rpc ≡ c.rpc
    region : d.region ≡ c.region
    is_prewrite : d.is_prewrite ≡ c.is_prewrite
    retries : d.rpc_retry_times ≡ c.rpc_retry_times
    sound : Sound c.region d.cache
    honest :
        is_ok d.status ≡ true
        → (succeeds r ≡ true) × ((roles_of c.region d.cache).leader_addr ≡ c.rpc.end_point)

  call_back-Replied :
      (r : Reply) (c : Controller)
      → Fair c.region r.error
      → Sound c.region c.cache
      → Returns (send_store_rpc_call_back number r c) (Replied r c)
  unfolding send_store_rpc_call_back Answered
  call_back-Replied r c f s = elim (Bool-cases (is_ok r.status)) [
    | inl y ↦
        let marked : Cache =
          set_roles c.region (mark_leader c.rpc.end_point (roles_of c.region c.cache)) c.cache in
        rw (y) (
          Returns->>= (Answered r.error c.region marked) (Replied r c)
            (on_error number r.error c.rpc.end_point c.region marked) _
            (on_error-Answered r.error c.rpc.end_point c.region marked f
              (mark_leader-Sound c.region _ c.cache s))
            λ x w. record {
              rpc = refl;
              region = refl;
              is_prewrite = refl;
              retries = refl;
              sound = w.0;
              honest = λ z. (
                ground (arith, y, (w.1 z).0),
                ap (λ k. (roles_of c.region k).leader_addr) (w.1 z).1
                    ∙ ap (λ (k : Roles). k.leader_addr) (roles_of-set_roles c.region _ c.cache)
                    ∙ leader_addr-mark_leader c.rpc.end_point (roles_of c.region c.cache),
              );
            })
    | inr n ↦ rw (n) (record {
      rpc = refl;
      region = refl;
      is_prewrite = refl;
      retries = refl;
      sound = mark_follower-Sound c.region c.rpc.end_point c.cache s;
      honest = λ z. cc (n, z);
    })
  ]

  -- A success is what the end point that is now held to be the leader answered to the last request.
  abbrev pub Honest : Controller → Type 0
  Honest d =
      is_ok d.status ≡ true
      → (n : ℕ) × (d.rpc.sent ≡ suc n)
        × (succeeds (net n d.rpc.end_point) ≡ true)
        × ((roles_of d.region d.cache).leader_addr ≡ d.rpc.end_point)

  -- The controller is after `c`, on the same region.
  pub record Attempted (c d : Controller) : Type 0 where
    pub sound : Sound d.region d.cache
    pub region : d.region ≡ c.region
    pub is_prewrite : d.is_prewrite ≡ c.is_prewrite
    pub sent : d.rpc.sent ≡ suc c.rpc.sent
    pub retries : d.rpc_retry_times ≡ c.rpc_retry_times
    pub honest : Honest d

  record Prepared (c p : Controller) : Type 0 where
    sound : Sound c.region p.cache
    end_point : Valid p.rpc.end_point
    region : p.region ≡ c.region
    is_prewrite : p.is_prewrite ≡ c.is_prewrite
    sent : p.rpc.sent ≡ c.rpc.sent
    retries : p.rpc_retry_times ≡ c.rpc_retry_times

  prepare_rpc-Prepared :
      (c : Controller) → Sound c.region c.cache → Returns (prepare_rpc c) (Prepared c)
  unfolding prepare_rpc
  prepare_rpc-Prepared c s = elim (Bool-cases (need_pick_leader c)) [
    | inl y ↦ rw (y) (
        Returns->>= (λ x. Valid x.0 × HasReplicas x.1) (Prepared c)
          (get_leader (roles_of c.region c.cache)) _ (get_leader-Valid _ s.replicas)
          λ x v. rw (v.0) (record {
            sound = own-Sound c.region x.1 c.cache s v.1;
            end_point = v.0;
            region = refl;
            is_prewrite = refl;
            sent = refl;
            retries = refl;
          }))
    | inr n ↦ rw (n) (record {
      sound = s;
      end_point = unfold need_pick_leader in ground (arith, n);
      region = refl;
      is_prewrite = refl;
      sent = refl;
      retries = refl;
    })
  ]

  after_reply :
      (c p d : Controller)
      → Prepared c p
      → Replied (net p.rpc.sent p.rpc.end_point) (send_store_rpc p) d
      → Attempted c d
  unfolding send_store_rpc
  after_reply c p d w x = record {
    sound = subst (λ k. Sound k d.cache) (sym x.region) x.sound;
    region = x.region ∙ w.region;
    is_prewrite = x.is_prewrite ∙ w.is_prewrite;
    sent = ap (λ r. r.sent) x.rpc ∙ ap suc w.sent;
    retries = x.retries ∙ w.retries;
    honest = λ z.
        let e : d.rpc.end_point ≡ p.rpc.end_point = ap (λ r. r.end_point) x.rpc in
        (
          p.rpc.sent,
          ap (λ r. r.sent) x.rpc,
          rw (e) (x.honest z).0,
          ap (λ k. (roles_of k d.cache).leader_addr) x.region ∙ (x.honest z).1 ∙ sym e,
        );
  }

  -- What comes back for a request to the region.
  abbrev pub FairTo : RegionPtr → Type 0
  FairTo r = (n : ℕ) (e : EndPoint) → Fair r (net n e).error

  pub attempt-Attempted :
      (c : Controller)
      → FairTo c.region
      → Sound c.region c.cache
      → Returns (attempt number net c) (Attempted c)
  unfolding attempt send_store_rpc
  attempt-Attempted c fair s =
      Returns->>= (Prepared c) _ (prepare_rpc c) _ (prepare_rpc-Prepared c s) λ p w.
        Returns-map (Replied (net p.rpc.sent p.rpc.end_point) (send_store_rpc p)) (Attempted c)
          (send_store_rpc_call_back number (net p.rpc.sent p.rpc.end_point) (send_store_rpc p))
          (λ d x. after_reply c p d w x)
          (call_back-Replied (net p.rpc.sent p.rpc.end_point) (send_store_rpc p)
            (subst (λ k. Fair k (net p.rpc.sent p.rpc.end_point).error) (sym w.region) (fair _ _))
            (subst (λ k. Sound k p.cache) (sym w.region) w.sound))

  -- After ResetRegion to a region that is sound with the cache, while the status is Incomplete and the
  -- end point is valid, the request still goes to the end point that it had: whatever comes back, the
  -- end point afterwards is the same one.
  pub reset_region_keeps_end_point :
      (r : RegionPtr) (c : Controller)
      → is_valid c.rpc.end_point ≡ true
      → c.status.code ≡ incomplete
      → FairTo r
      → Sound r c.cache
      → Returns
          (attempt number net (reset_region r c))
          λ d. (d.region ≡ r) × (d.rpc.end_point ≡ c.rpc.end_point) × (d.rpc.sent ≡ suc c.rpc.sent)
  unfolding attempt send_store_rpc reset_region
  reset_region_keeps_end_point r c v i f s = rw (stays) (
      Returns-map (Replied (net c.rpc.sent c.rpc.end_point) (send_store_rpc (reset_region r c))) _
        (send_store_rpc_call_back number (net c.rpc.sent c.rpc.end_point)
          (send_store_rpc (reset_region r c)))
        (λ d x. (x.region, ap (λ k. k.end_point) x.rpc, ap (λ k. k.sent) x.rpc))
        (call_back-Replied (net c.rpc.sent c.rpc.end_point) (send_store_rpc (reset_region r c))
          (f _ _) s))
    where
      kept : need_pick_leader (reset_region r c) ≡ false
      kept = unfold need_pick_leader reset_region in rw (v, i) refl

      stays : prepare_rpc (reset_region r c) ≡ done (reset_region r c)
      stays = unfold prepare_rpc in rw (kept) refl
