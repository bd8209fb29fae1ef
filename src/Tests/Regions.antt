-- ===== src/Tests/Regions.antt =====
-- The region cache and the region objects at concrete ranges.
use dingo_sdk.Base.{
  ℕ, zero, suc, true, false, List, [], ◌∷◌, none, some, if◌then◌else◌, ◌≡◌, refl, arith, Bool-cases,
  inl, inr, ◌==◌, subst,
}
use dingo_sdk.Key.{Key, key_ltb, key_eqb}
use dingo_sdk.Key.Order.{◌<ₖ◌}
use dingo_sdk.OrdMap
use dingo_sdk.Outcome.{done, Returns, for_each, ◌>>=◌}
use dingo_sdk.Status.{success, HoldsOf}
use dingo_sdk.MetaCache.Coordinator.{ScanRegionInfo, lookup_region_by_key}
use dingo_sdk.MetaCache.Found.{Answers, HasKey, lookup_region_by_key-HasKey}
use dingo_sdk.Region.{
  RegionPtr, Memory, region_store, Roles, EndPoint, leader, follower, new_roles, mark_follower,
  get_leader, is_valid, end_point_eqb,
}
use dingo_sdk.Region.Leader.{follows, learn, Consistent, Learnt, learn-Learnt}
use dingo_sdk.MetaCache.{
  Cache, maybe_add_region, clear_region, fast_look_up_region_by_key, add_range_to_cache_unlocked,
  remove_region_unlocked, need_update_region, need_clear_region, maybe_add_region_unlocked,
  remove_region, clear_cache,
}
use dingo_sdk.MetaCache.Ids.{find_id, erase_id}
use dingo_sdk.MetaCache.Invariant.{IsValid}
use dingo_sdk.MetaCache.Calls.{
  Call, adds, clears, removes, clears_all, call, empty_cache, empty_cache-IsValid, call-Follows,
  run-IsValid,
}
use dingo_sdk.MetaCache.History.{Known, Follows}
use dingo_sdk.MetaCache.Update.{
  MaybeAdded, maybe_add_region-MaybeAdded, Cleared, clear_region-Cleared,
}
use dingo_sdk.MetaCache.Lookup.{
  covering, covers, found, unless_meets, fast_look_up_region_by_key-covering, look_up_after_add,
}

abbrev start_memory : Memory
start_memory = record { next_addr = 3; stale = λ _. false; roles = λ _. new_roles [] }

abbrev region : ℕ → ℕ → Key → Key → ℕ → RegionPtr
region addr id start end version = record {
  addr = addr;
  info = record {
    region_id = id;
    start_key = start;
    end_key = end;
    epoch = record { version = version; conf_version = 1 };
    region_type = region_store;
  };
}

-- [a, c), [c, e), and [b, d) of a split that displaces both.
abbrev left : RegionPtr
left = region 0 1 (b'a' ∷ []) (b'c' ∷ []) 1

abbrev right : RegionPtr
right = region 1 2 (b'c' ∷ []) (b'e' ∷ []) 1

abbrev middle : RegionPtr
middle = region 2 3 (b'b' ∷ []) (b'd' ∷ []) 2

abbrev object : ℕ → RegionPtr
object zero = left
object (suc zero) = right
object _ = middle

abbrev calls : List Call
calls = adds left ∷ adds right ∷ adds middle ∷ clears left ∷ removes 3 ∷ clears_all ∷ []

program : Unit {0}
unfolding key_ltb key_eqb OrdMap.find OrdMap.erase OrdMap.insert OrdMap.before OrdMap.from
    OrdMap.up_to for_each add_range_to_cache_unlocked remove_region_unlocked maybe_add_region
    maybe_add_region_unlocked need_update_region need_clear_region clear_region remove_region
    clear_cache call find_id erase_id fast_look_up_region_by_key covering
program = tt

abbrev two_cached : Cache
two_cached = record {
  memory = start_memory;
  by_id = (2, right) ∷ (1, left) ∷ [];
  by_key = (b'a' ∷ [], left) ∷ (b'c' ∷ [], right) ∷ [];
}

two_added :
    for_each call (adds left ∷ adds right ∷ []) (empty_cache start_memory)
      >>= (λ c. done (c.by_key))
    ≡ done two_cached.by_key
unfolding program
two_added = refl

look_up_b : fast_look_up_region_by_key (b'b' ∷ []) two_cached ≡ done (success left)
unfolding program
look_up_b = refl

run-IsValid_example :
    Returns
      (for_each call calls (empty_cache start_memory))
      (λ c'. IsValid c' × Known object c'.by_key)
run-IsValid_example =
    run-IsValid object calls (empty_cache start_memory)
      (unfold program in ((refl, refl), ((refl, refl), ((refl, refl), (tt, (tt, (tt, tt)))))))
      (empty_cache-IsValid start_memory) tt

two_cached-IsValid : IsValid two_cached
unfolding program
two_cached-IsValid = record {
  ranges = (refl, ((refl, λ e. omega arith), tt), (refl, tt, tt));
  keyed = (refl, (refl, tt));
  listed = (refl, (refl, tt));
  linked = λ i r h. elim (Bool-cases (i == 2)) [
    | inl two ↦ subst (Linked i) (right_is i r h two) (ground arith, refl)
    | inr other ↦ subst (Linked i) (left_is i r h other) (ground (arith, h), refl)
  ];
  fresh = (refl, (refl, tt));
}
  where
    Linked : ℕ → RegionPtr → Type 0
    Linked i r = (r.region_id ≡ i) × (OrdMap.find r.start_key two_cached.by_key ≡ some r)

    right_is :
        (i : ℕ) (r : RegionPtr) → find_id i two_cached.by_id ≡ some r → (i == 2) ≡ true → right ≡ r
    right_is i r h e = ground (arith, h)

    left_is :
        (i : ℕ) (r : RegionPtr) → find_id i two_cached.by_id ≡ some r → (i == 2) ≡ false → left ≡ r
    left_is i r h e = ground (arith, h)

middle_proper : middle.start_key <ₖ middle.end_key
unfolding program
middle_proper = refl

call-Follows_example : Returns (call (adds middle) two_cached) (Follows object two_cached)
call-Follows_example =
    call-Follows object (adds middle) two_cached (unfold program in (refl, refl)) two_cached-IsValid
      (refl, (refl, tt))

maybe_add_region-MaybeAdded_example :
    Returns (maybe_add_region middle two_cached) (MaybeAdded middle middle_proper two_cached)
maybe_add_region-MaybeAdded_example =
    maybe_add_region-MaybeAdded middle middle_proper two_cached two_cached-IsValid
      ((λ e. absurd (omega arith)), ((λ e. absurd (omega arith)), tt))

clear_region-Cleared_example : Returns (clear_region left two_cached) (Cleared left two_cached)
clear_region-Cleared_example = clear_region-Cleared left two_cached two_cached-IsValid

look_up_example : fast_look_up_region_by_key (b'd' ∷ []) two_cached ≡ done (success right)
unfolding program
look_up_example = fast_look_up_region_by_key-covering (b'd' ∷ []) two_cached two_cached-IsValid

look_up_after_add_example : Returns (add_range_to_cache_unlocked middle two_cached) λ c'.
    (key : Key)
    → fast_look_up_region_by_key key c'
      ≡ done (
          found (
            if covers key middle
            then some middle
            else unless_meets middle (covering key two_cached.by_key)))
look_up_after_add_example =
    look_up_after_add middle middle_proper two_cached two_cached-IsValid (unfold program in refl)
      ((λ e. omega arith), ((λ e. omega arith), tt))

-- The coordinator says that [d, f) is what has e now.
abbrev reply : ScanRegionInfo
reply = record {
  region_id = 4;
  range = some (record { start_key = b'd' ∷ []; end_key = b'f' ∷ [] });
  region_epoch = some (record { version = 3; conf_version = 1 });
  leader_location = none;
  voters = [];
  learners = [];
  region_type = region_store;
}

reply-Answers : Answers (b'e' ∷ []) (success (reply ∷ []))
unfolding program
reply-Answers = (_, _, refl, refl, refl, refl)

lookup_region_by_key-HasKey_example :
    Returns
      (lookup_region_by_key (b'e' ∷ []) (success (reply ∷ [])) two_cached)
      (HoldsOf IsValid (HasKey (b'e' ∷ [])))
lookup_region_by_key-HasKey_example =
    lookup_region_by_key-HasKey (b'e' ∷ []) (success (reply ∷ [])) two_cached refl reply-Answers
      two_cached-IsValid (omega arith, (omega arith, tt))

abbrev host : Key
host = b'h' ∷ []

abbrev first_store : EndPoint
first_store = record { host = host; port = 20001 }

abbrev second_store : EndPoint
second_store = record { host = host; port = 20002 }

abbrev roles : Roles
roles = record {
  leader_addr = first_store;
  replicas =
      record { end_point = first_store; role = leader }
      ∷ record { end_point = second_store; role = follower }
      ∷ [];
  next_replica_index = 0;
}

roles-Consistent : Consistent roles
unfolding is_valid
roles-Consistent = ((λ _. (refl, refl)), ((λ e. cc), tt))

learn-Learnt_example : Learnt (follows first_store) roles (learn (follows first_store) roles)
learn-Learnt_example = learn-Learnt (follows first_store) roles refl roles-Consistent

-- With no leader known the replicas are tried in turn.
no_leader : get_leader (mark_follower first_store roles) >>= (λ x. done x.0) ≡ done first_store
unfolding get_leader mark_follower is_valid end_point_eqb key_eqb
no_leader = refl
