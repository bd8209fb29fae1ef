-- ===== src/Rpc/Store/Sound.antt =====
-- What the controller and the cache have in common, and that the answers of a store keep it.
use dingo_sdk.Base.{
  ℕ, suc, ◌<◌, ◌%◌, ◌^◌, ◌==◌, ==_refl, true, false, List, [], ◌∷◌, Option, none, some, ◌≡◌, refl,
  sym, ap, ◌∙◌, subst, All, All-map, All-keep, Bool-cases, inl, inr, arith, length,
}
use dingo_sdk.Key.{is_empty, key_leb}
use dingo_sdk.OrdMap.Laws.{All-erase, All-insert}
use dingo_sdk.Outcome.{done, Returns, Returns->>=, Returns-map, ◌>>=◌}
use dingo_sdk.Region.Replicas.{Valid, HasReplicas, get_leader-Valid, mark_leader-HasReplicas}
use dingo_sdk.Region.{
  Info, make_region, new_roles, is_valid, RegionPtr, Replica, Roles, Epoch, mark_leader, get_leader,
  update,
}
use dingo_sdk.MetaCache.{Cache, clear_region, maybe_add_region}
use dingo_sdk.MetaCache.Coordinator.{Range, create}
use dingo_sdk.MetaCache.Ids.{find_id}
use dingo_sdk.MetaCache.Invariant.{Entry, IsValid, without, without-IsValid}
use dingo_sdk.MetaCache.Add.{Added}
use dingo_sdk.Key.Order.{◌<ₖ◌}
use dingo_sdk.MetaCache.Found.{Older, create-IsValid, create-SameObject}
use dingo_sdk.MetaCache.Update.{
  SameObject, MaybeAdded, current, replaced, added, maybe_add_region-MaybeAdded, Cleared,
  stale_already, not_cached, outdated, cleared, clear_region-Cleared,
}
use dingo_sdk.Rpc.{Location, location_to_end_point}
use dingo_sdk.Rpc.Store.{
  StoreRegionInfo, set_roles, roles_of, replicas_at, process_store_region_info, learn_region,
}

-- Each region of the cache has replicas.
abbrev pub Stocked : Cache → Type 0
Stocked c = All (λ (e : Entry). HasReplicas (c.roles e.1.addr)) c.by_key

-- The cache is valid, its objects are older than the next one, and have replicas.
pub record Kept (c : Cache) : Type 0 where
  pub valid : IsValid c
  pub older : Older c
  pub stocked : Stocked c

-- So is the region, which need not be in the cache.
pub record Sound (r : RegionPtr) (c : Cache) : Type 0 where
  pub kept : Kept c
  pub open kept use *
  pub made : r.addr < c.next_addr
  pub replicas : HasReplicas (roles_of r c)

update-HasReplicas :
    (f : ℕ → Roles) (a b : ℕ) (x : Roles)
    → HasReplicas x
    → HasReplicas (f b)
    → HasReplicas (update f a x b)
update-HasReplicas f a b x h k = elim (Bool-cases (a == b)) [ inl e ↦ rw (e) h | inr n ↦ rw (n) k ]

module _ (r : RegionPtr) (c : Cache) (s : Sound r c) where
  pub set_roles-Sound : (w : RegionPtr) (x : Roles) → HasReplicas x → Sound r (set_roles w x c)
  unfolding set_roles
  set_roles-Sound w x h = record {
    kept = record {
      valid = record {
        ranges = s.valid.ranges;
        keyed = s.valid.keyed;
        listed = s.valid.listed;
        linked = s.valid.linked;
        fresh = s.valid.fresh;
      };
      older = s.older;
      stocked =
          All-map (λ e k. update-HasReplicas c.roles w.addr e.1.addr x h k) c.by_key s.stocked;
    };
    made = s.made;
    replicas = update-HasReplicas c.roles w.addr r.addr x h s.replicas;
  }

  Cleared-Sound : (w : RegionPtr) (c' : Cache) → Cleared w c c' → Sound r c'
  Cleared-Sound w c' (stale_already h e) = subst (Sound r) (sym e) s
  Cleared-Sound w c' (not_cached h e) = subst (Sound r) (sym e) s
  Cleared-Sound w c' (outdated held h n e) = subst (Sound r) (sym e) s
  Cleared-Sound w c' (cleared held st h n e g q) = subst (Sound r) (sym e) (record {
    kept = record {
      valid =
          without-IsValid c s.valid held
            (ap (λ i. find_id i c.by_id) (s.valid.linked _ held h).0 ∙ h);
      older = All-erase _ held.start_key c.by_key s.older;
      stocked = All-erase _ held.start_key c.by_key s.stocked;
    };
    made = s.made;
    replicas = s.replicas;
  })

  pub clear_region-Sound : (w : RegionPtr) → Returns (clear_region w c) (Sound r)
  clear_region-Sound w =
      Returns-map (Cleared w c) (Sound r) (clear_region w c) (Cleared-Sound w)
        (clear_region-Cleared w c s.valid)

-- Putting in a region that is another object than those of the cache.
pub maybe_add_region-Sound :
    (w : RegionPtr) (c : Cache)
    → w.start_key <ₖ w.end_key
    → SameObject w c.by_key
    → Sound w c
    → Returns (maybe_add_region w c) (λ d. Kept d × ((r : RegionPtr) → Sound r c → Sound r d))
maybe_add_region-Sound w c p one s =
    Returns-map (MaybeAdded w p c) _ (maybe_add_region w c) go
      (maybe_add_region-MaybeAdded w p c s.valid one)
  where
    Goes : Cache → Type 0
    Goes d = Kept d × ((r : RegionPtr) → Sound r c → Sound r d)

    from_added :
        (d c' : Cache)
        → Older d
        → Stocked d
        → d.next_addr ≡ c.next_addr
        → d.roles ≡ c.roles
        → Added w p d c'
        → Goes c'
    from_added d c' o t n q a =
        let k : Kept c' = record {
          valid = a.valid;
          older = rw (a.holds) (
              All-map (λ e h. omega (arith, h, a.same_next, n)) _
                (All-insert (λ e. e.1.addr < d.next_addr) w.start_key w _ (omega (arith, s.made, n))
                  (All-keep _ _ d.by_key o)));
          stocked =
              rw (a.holds, a.same_roles)
                (All-insert (λ e. HasReplicas (d.roles e.1.addr)) w.start_key w _
                  (subst (λ f. HasReplicas (f w.addr)) (sym q) s.replicas)
                  (All-keep _ _ d.by_key t));
        } in
        (
          k,
          λ r h. record {
            kept = k;
            made = omega (arith, h.made, a.same_next, n);
            replicas = subst (λ f. HasReplicas (f r.addr)) (sym (a.same_roles ∙ q)) h.replicas;
          },
        )

    go : (c' : Cache) → MaybeAdded w p c c' → Goes c'
    go c' (current h k n e) = subst Goes (sym e) (s.kept, λ r h. h)
    go c' (replaced h k n a) =
        from_added (without h c) c' (All-erase _ h.start_key c.by_key s.older)
          (All-erase _ h.start_key c.by_key s.stocked) refl refl a
    go c' (added k a) = from_added c c' s.older s.stocked refl refl a

-- A new object at the next address.
module _ (i : Info) (replicas : List Replica) (c : Cache) (k : Kept c) where
  abbrev ValidReplicas : Type 0
  ValidReplicas = (0 < length replicas) × All (λ (x : Replica). Valid x.end_point) replicas

  create-Kept : ValidReplicas → Kept (create i replicas c).1
  unfolding create make_region new_roles
  create-Kept h = record {
    valid = create-IsValid replicas i c k.valid k.older;
    older = All-map (λ e h. omega (arith, h)) c.by_key k.older;
    stocked =
        All-map (λ e t. update-HasReplicas c.roles c.next_addr e.1.addr (new_roles replicas) h t)
          c.by_key k.stocked;
  }

  pub create-Sound : ValidReplicas → Sound (create i replicas c).0 (create i replicas c).1
  unfolding create make_region new_roles
  create-Sound h = record {
    kept = create-Kept h;
    made = omega arith;
    replicas = rw (==_refl c.next_addr) h;
  }

  create-Sound_old : ValidReplicas → (r : RegionPtr) → Sound r c → Sound r (create i replicas c).1
  unfolding create make_region new_roles
  create-Sound_old h r s = record {
    kept = create-Kept h;
    made = omega (arith, s.made);
    replicas = update-HasReplicas c.roles c.next_addr r.addr (new_roles replicas) h s.replicas;
  }

-- The peer is at a place that gives a valid end point.
abbrev pub Placed : Option Location → Type 0
Placed none = ⊥
Placed (some l) = (is_empty l.host ≡ false) × (0 < l.port % 2 ^ 16)

-- The description is of the region, and complete.
abbrev pub Describes : RegionPtr → StoreRegionInfo → Type 0
Describes r info =
    (epoch : Epoch) × (range : Range) × (info.current_region_epoch ≡ some epoch)
    × (info.current_range ≡ some range)
    × ((info.region_id == r.region_id) ≡ true)
    × (0 < length info.peers)
    × All Placed info.peers

replicas_at-Returns :
    (ps : List (Option Location))
    → All Placed ps
    → Returns
        (replicas_at ps)
        λ x. (length x ≡ length ps) × All (λ (r : Replica). Valid r.end_point) x
unfolding replicas_at location_to_end_point
replicas_at-Returns [] h = (refl, tt)
replicas_at-Returns (none ∷ ps) h = h.0
replicas_at-Returns (some l ∷ ps) h =
    let v : is_valid (record { host = l.host; port = l.port % 2 ^ 16 }) ≡ true =
      unfold is_valid in ground (arith, h.0.0, h.0.1) in
    rw (h.0.0, v)
      (Returns->>= _ _ (replicas_at ps) _ (replicas_at-Returns ps h.1)
        λ x u. (ap suc u.0, (v, u.1)))

-- A region object that was made, beside the cache.
abbrev pub Made : RegionPtr → RegionPtr × Cache → Type 0
Made r m = Sound r m.1 × Sound m.0 m.1 × SameObject m.0 m.1.by_key

-- The new object learns the leader of the old one.
told-Made :
    (r : RegionPtr) (c : Cache)
    → Sound r c
    → (i : Info) (replicas : List Replica) → 0 < length replicas
    → All (λ (x : Replica). Valid x.end_point) replicas
    → Returns
        (do
          picked ← get_leader (roles_of r (create i replicas c).1)
          let told = set_roles r picked.1 (create i replicas c).1
          done (
            (create i replicas c).0,
            set_roles
                (create i replicas c).0
                (mark_leader picked.0 (roles_of (create i replicas c).0 told))
                told,
          ))
        (Made r)
told-Made r c s i replicas l h =
    let w : RegionPtr = (create i replicas c).0 in
    let d : Cache = (create i replicas c).1 in
    let m : Sound r d = create-Sound_old i replicas c s.kept (l, h) r s in
    let n : Sound w d = create-Sound i replicas c s.kept (l, h) in
    Returns->>= (λ p. Valid p.0 × HasReplicas p.1) (Made r) (get_leader (roles_of r d)) _
      (get_leader-Valid _ m.replicas)
      λ picked v.
        let told : Sound w (set_roles r picked.1 d) = set_roles-Sound w d n r picked.1 v.1 in
        let marked = mark_leader-HasReplicas picked.0 _ told.replicas in
        (
          set_roles-Sound r _ (set_roles-Sound r d m r picked.1 v.1) w _ marked,
          set_roles-Sound w _ told w _ marked,
          unfold set_roles in create-SameObject replicas i c s.valid s.older,
        )

pub process_store_region_info-Made :
    (info : StoreRegionInfo) (r : RegionPtr) (c : Cache)
    → Describes r info
    → Sound r c
    → Returns (process_store_region_info info r c) (Made r)
unfolding process_store_region_info
process_store_region_info-Made info r c d s =
    rw (d.2, d.3, d.4)
      (Returns->>= _ (Made r) (replicas_at info.peers) _ (replicas_at-Returns info.peers d.6)
        λ replicas u. told-Made r c s _ replicas (omega (arith, u.0, d.5)) u.1)

pub learn_region-Sound :
    (o : Option StoreRegionInfo) (r : RegionPtr) (c : Cache)
    → ((info : StoreRegionInfo) → o ≡ some info → Describes r info)
    → Sound r c
    → Returns (learn_region o r c) (Sound r)
unfolding learn_region
learn_region-Sound none r c d s = s
learn_region-Sound (some info) r c d s =
    Returns->>= (Made r) (Sound r) (process_store_region_info info r c) _
      (process_store_region_info-Made info r c (d info refl) s)
      λ m x. elim (Bool-cases (key_leb m.0.end_key m.0.start_key)) [
        | inl e ↦ rw (e) x.0
        | inr n ↦ rw (n) (
            Returns-map _ (Sound r) (maybe_add_region m.0 m.1) (λ d h. h.1 r x.0)
              (maybe_add_region-Sound m.0 m.1 (ground (arith, n)) x.2 x.1))
      ]
