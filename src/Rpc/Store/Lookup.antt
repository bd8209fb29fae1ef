-- ===== src/Rpc/Store/Lookup.antt =====
-- The region that `LookupRegionByKey` gives is one that a request can be sent to.
use dingo_sdk.Base.{
  ◌<◌, true, false, List, [], ◌∷◌, Option, none, some, ◌≡◌, refl, subst, All, Bool-cases, inl, inr,
  arith, length,
}
use dingo_sdk.Key.{Key, is_empty}
use dingo_sdk.Key.Order.{◌<ₖ◌, ◌≤ₖ◌}
use dingo_sdk.Outcome.{done, ◌>>=◌, Returns, Returns->>=}
use dingo_sdk.Status.{Result, success, failure, and_then, is_ok}
use dingo_sdk.Region.{RegionPtr, Info, Replica}
use dingo_sdk.Region.Replicas.{Valid, HasReplicas}
use dingo_sdk.MetaCache.{Cache, maybe_add_region}
use dingo_sdk.MetaCache.Invariant.{Entry}
use dingo_sdk.MetaCache.Lookup.{covers, covering, found, fast_look_up_region_by_key-covering}
use dingo_sdk.MetaCache.Found.{Answers, made_covers, with_range_lem, create-SameObject, proper}
use dingo_sdk.MetaCache.Coordinator.{
  ScanRegionInfo, create, replicas_of, process_scan_region_info, with_range,
  process_scan_by_key_response, slow_look_up_region_by_key, lookup_region_by_key, or_else,
}
use dingo_sdk.Rpc.Store.Sound.{Kept, Sound, create-Sound, maybe_add_region-Sound}

-- The regions of a reply have replicas, and a failure is an error.
abbrev pub HasPeers : ScanRegionInfo → Type 0
HasPeers info =
    (0 < length (replicas_of info)) × All (λ (x : Replica). Valid x.end_point) (replicas_of info)

abbrev pub Peers : Result (List ScanRegionInfo) → Type 0
Peers (failure s) = is_ok s ≡ false
Peers (success infos) = All HasPeers infos

-- The region has the key, and a request can be sent to it.
abbrev pub Reachable : Key → RegionPtr → Cache → Type 0
Reachable key r c = Sound r c × (covers key r ≡ true)

-- What a lookup gives: an error, or such a region.
abbrev pub Gives : Key → Result RegionPtr × Cache → Type 0
Gives key (failure s, c) = (is_ok s ≡ false) × Kept c
Gives key (success r, c) = Reachable key r c

covering-Sound :
    (key : Key) (c : Cache) (r : RegionPtr)
    → Kept c
    → covering key c.by_key ≡ some r
    → Reachable key r c
covering-Sound key c r k h =
    let (a, b, d) = go c.by_key k.older k.stocked h in
    (record { kept = k; made = a; replicas = b }, d)
  where
    go :
        (m : List Entry)
        → All (λ (e : Entry). e.1.addr < c.next_addr) m
        → All (λ (e : Entry). HasReplicas (c.roles e.1.addr)) m
        → covering key m ≡ some r
        → (r.addr < c.next_addr) × HasReplicas (c.roles r.addr) × (covers key r ≡ true)
    go [] o t h = unfold covering in cc
    go ((j, w) ∷ m) o t h = elim (Bool-cases (covers key w)) [
      | inl e ↦
          let q : w ≡ r = unfold covering in ground (arith, h, e) in
          subst (λ x. (x.addr < c.next_addr) × HasReplicas (c.roles x.addr) × (covers key x ≡ true))
            q (o.0, t.0, e)
      | inr e ↦ go m o.1 t.1 (unfold covering in ground (arith, h, e))
    ]

slow_look_up_region_by_key-Reachable :
    (key : Key) (reply : Result (List ScanRegionInfo)) (c : Cache)
    → Answers key reply
    → Peers reply
    → Kept c
    → Returns (slow_look_up_region_by_key reply c) (Gives key)
unfolding slow_look_up_region_by_key process_scan_by_key_response process_scan_region_info
    replicas_of
slow_look_up_region_by_key-Reachable key (failure s) c a p k = (p, k)
slow_look_up_region_by_key-Reachable key (success []) c a p k = (refl, k)
slow_look_up_region_by_key-Reachable key (success (info ∷ [])) c a p k =
    rw (a.2, a.3) (add_new _ a.4 a.5)
  where
    add_new :
        (i : Info)
        → i.start_key ≤ₖ key
        → key <ₖ i.end_key
        → Returns
            (and_then
              (with_range (create i (replicas_of info) c))
              (λ r c2. maybe_add_region r c2 >>= λ c3. done (success r, c3)))
            (Gives key)
    add_new i low high =
        let w : RegionPtr = (create i (replicas_of info) c).0 in
        let d : Cache = (create i (replicas_of info) c).1 in
        rw (with_range_lem (replicas_of info) i c k.valid k.older key low high) (
          Returns->>= _ (Gives key) (maybe_add_region w d) _
            (maybe_add_region-Sound w d (proper (replicas_of info) i c k.valid k.older key low high)
              (create-SameObject (replicas_of info) i c k.valid k.older)
              (create-Sound i (replicas_of info) c k p.0))
            λ c3 m. (
              m.1 w (create-Sound i (replicas_of info) c k p.0),
              made_covers (replicas_of info) i c k.valid k.older key low high,
            ))
slow_look_up_region_by_key-Reachable key (success (info ∷ other ∷ infos)) c a p k = a

-- On a cache that is kept well, and with a reply that names no region, or is an error, or covers the key
-- with a region that has a replica and all of its replicas at valid end points, LookupRegionByKey of a key
-- that is not empty keeps the cache well, and gives an error or a region that has the key and that a request
-- can be sent to.
pub lookup_region_by_key-Reachable :
    (key : Key) (reply : Result (List ScanRegionInfo)) (c : Cache)
    → is_empty key ≡ false
    → Answers key reply
    → Peers reply
    → Kept c
    → Returns (lookup_region_by_key key reply c) (Gives key)
unfolding lookup_region_by_key
lookup_region_by_key-Reachable key reply c n a p k =
    rw (n, fast_look_up_region_by_key-covering key c k.valid) (go (covering key c.by_key) refl)
  where
    go :
        (h : Option RegionPtr)
        → covering key c.by_key ≡ h
        → Returns (or_else (found h) (slow_look_up_region_by_key reply c) c) (Gives key)
    go none e = slow_look_up_region_by_key-Reachable key reply c a p k
    go (some r) e = covering-Sound key c r k e
