-- ===== src/RawKv/Batch/States.antt =====
-- The batch tasks that give out a state for each key.
use dingo_sdk.Base.{
  ℕ, suc, ◌+◌, ◌≤◌, ◌<◌, Bool, true, false, List, [], ◌∷◌, ◌++◌, map, length, Option, some, ◌≡◌,
  refl, sym, ap, ◌∙◌, Bool-cases, inl, inr, arith, ==_iff,
}
use dingo_sdk.Key.{Key, key_eqb}
use dingo_sdk.Key.Order.{eqb_iff, eqb_refl}
use dingo_sdk.Outcome.{Outcome, done, ◌>>=◌, Returns, Returns-map, Returns->>=}
use dingo_sdk.Status.{Status, Result, is_ok}
use dingo_sdk.Region.{RegionPtr}
use dingo_sdk.Keyed.{Group}
use dingo_sdk.Keyed.Count.{count, keys_in}
use dingo_sdk.Keyed.Once.{Terms, Fails, LookedUp, Sent}
use dingo_sdk.RawKv.Scanner.{KvPair}
use dingo_sdk.RawKv.Batch.{
  BatchCall, batch_put, batch_get, batch_delete, batch_put_if_absent, batch_compare_and_set,
  Request, kv_batch_put_if_absent, kv_batch_compare_and_set, Response, Taken, first_of, keys_of,
  find_kv, find_context, find_each, request_of, states_of, take_states, take_response, send,
}

-- The call is a put-if-absent, or a compare-and-set with as many expected values as keys.
abbrev pub GivesStates : BatchCall → Type 0
GivesStates (batch_put_if_absent kvs) = Unit
GivesStates (batch_compare_and_set kvs expected) = length kvs ≡ length expected
GivesStates _ = ⊥

abbrev pub size_of : Request → ℕ
size_of (kv_batch_put_if_absent kvs) = length kvs
size_of (kv_batch_compare_and_set kvs) = length kvs
size_of _ = 0

abbrev pub key_of : Key × Bool → Key
key_of s = s.0

find_kv-count :
    (k : Key) (kvs : List KvPair)
    → 0 < count k (map first_of kvs)
    → (kv : KvPair) × (find_kv k kvs ≡ some kv)
unfolding find_kv
find_kv-count k [] h = absurd (omega (arith, h))
find_kv-count k (kv ∷ kvs) h = elim (Bool-cases (key_eqb kv.0 k)) [
  | inl y ↦ (kv, rw (find_kv, y) refl)
  | inr n ↦
      let differ : key_eqb k kv.0 ≡ false = elim (Bool-cases (key_eqb k kv.0)) [
        | inl e ↦ cc (n, (eqb_iff k kv.0).0 e, eqb_refl k)
        | inr z ↦ z
      ] in
      let (found, e) = find_kv-count k kvs (ground (arith, h, differ)) in (found, rw (find_kv, n) e)
]

find_context-count :
    (k : Key) (kvs : List KvPair) (vs : List Key)
    → length kvs ≡ length vs
    → 0 < count k (map first_of kvs)
    → (x : KvPair × Key) × (find_context k kvs vs ≡ some x)
unfolding find_context
find_context-count k [] vs l h = absurd (omega (arith, h))
find_context-count k (kv ∷ kvs) [] l h = cc
find_context-count k (kv ∷ kvs) (v ∷ vs) l h = elim (Bool-cases (key_eqb kv.0 k)) [
  | inl y ↦ ((kv, v), rw (find_context, y) refl)
  | inr n ↦
      let differ : key_eqb k kv.0 ≡ false = elim (Bool-cases (key_eqb k kv.0)) [
        | inl e ↦ cc (n, (eqb_iff k kv.0).0 e, eqb_refl k)
        | inr z ↦ z
      ] in
      let (found, e) = find_context-count k kvs vs (omega (arith, l)) (ground (arith, h, differ)) in
      (found, rw (find_context, n) e)
]

find_each-length :
    {A : Type 0} (f : Key → Option A) (ks : List Key)
    → ((k : Key) → 0 < count k ks → (a : A) × (f k ≡ some a))
    → Returns (find_each f ks) λ xs. length xs ≡ length ks
unfolding find_each
find_each-length f [] h = refl
find_each-length f (k ∷ ks) h =
    let (a, e) = h k (ground (arith, eqb_refl k)) in
    rw (find_each, e)
      (Returns->>= (λ xs. length xs ≡ length ks) (λ xs. length xs ≡ length (k ∷ ks))
        (find_each f ks) _ (find_each-length f ks λ j p. h j (omega (arith, p))) λ xs l. ap suc l)

request_of-size :
    (b : BatchCall) (ks : List Key)
    → GivesStates b
    → ((k : Key) → count k ks ≤ count k (keys_of b))
    → Returns (request_of b ks) λ q. size_of q ≡ length ks
unfolding request_of
request_of-size (batch_put_if_absent kvs) ks g h =
    Returns->>= (λ xs. length xs ≡ length ks) (λ q. size_of q ≡ length ks) _ _
      (find_each-length (λ k. find_kv k kvs) ks λ k p. find_kv-count k kvs (omega (arith, p, h k)))
      λ xs l. l
request_of-size (batch_compare_and_set kvs vs) ks g h =
    Returns->>= (λ xs. length xs ≡ length ks) (λ q. size_of q ≡ length ks) _ _
      (find_each-length (λ k. find_context k kvs vs) ks
        λ k p. find_context-count k kvs vs g (omega (arith, p, h k)))
      λ xs l. l
request_of-size (batch_put kvs) ks g h = absurd g
request_of-size (batch_get keys) ks g h = absurd g
request_of-size (batch_delete keys) ks g h = absurd g

states_of-keys :
    (ks : List Key) (bs : List Bool) → length ks ≡ length bs → map key_of (states_of ks bs) ≡ ks
unfolding states_of
states_of-keys [] bs h = refl
states_of-keys (k ∷ ks) [] h = cc
states_of-keys (k ∷ ks) (b ∷ bs) h = ap (◌∷◌ k) (states_of-keys ks bs (omega (arith, h)))

take_response-states :
    (b : BatchCall) (r : Response) (ks : List Key) (t : Taken)
    → GivesStates b
    → length ks ≡ length r.key_states
    → take_response b r ks t
      ≡ done (ks, record t { tmp_out_states = t.tmp_out_states ++ states_of ks r.key_states })
unfolding take_response take_states
take_response-states (batch_put_if_absent kvs) r ks t g l =
    rw (take_states, (==_iff (length ks) (length r.key_states)).1 l) refl
take_response-states (batch_compare_and_set kvs vs) r ks t g l =
    rw (take_states, (==_iff (length ks) (length r.key_states)).1 l) refl
take_response-states (batch_put kvs) r ks t g l = absurd g
take_response-states (batch_get keys) r ks t g l = absurd g
take_response-states (batch_delete keys) r ks t g l = absurd g

count-states :
    (k : Key) (ks : List Key) (bs : List Bool) (old : List (Key × Bool))
    → length ks ≡ length bs
    → count k (map key_of (old ++ states_of ks bs)) ≡ count k (map key_of old) + count k ks
count-states k ks bs [] l = omega (arith, ap (count k) (states_of-keys ks bs l))
count-states k ks bs (x ∷ old) l = omega (arith, count-states k ks bs old l)

module _ {C : Type 0} (look_up : Key → C → Outcome (Result RegionPtr × C))
    (call : RegionPtr → Request → C → Outcome ((Status × Response) × C))
    (order : List Group → List Group) (b : BatchCall) (Holds : C → Type 0) where
  abbrev pub terms : Terms C Taken
  terms = record {
    ledger = λ t c. map key_of t.tmp_out_states;
    Holds = Holds;
    total = λ k. count k (keys_of b);
  }

  -- A lookup and a call return and keep `Holds`, an OK response has a state for each key of its
  -- request, and `order` only changes the order of the requests.
  pub record Served : Type 0 where
    pub looks : (k : Key) (c : C) → Holds c → Returns (look_up k c) λ x. Holds x.1 × Fails x.0
    pub calls :
        (r : RegionPtr) (q : Request) (c : C)
        → Holds c
        → Returns
            (call r q c)
            λ a. Holds a.1 × (is_ok a.0.0 ≡ true → size_of q ≡ length a.0.1.key_states)
    pub shuffles : (gs : List Group) (k : Key) → count k (keys_in (order gs)) ≡ count k (keys_in gs)

  module _ (v : Served) (g : GivesStates b) where
    answered :
        (x : Group) (t : Taken) (c : C) (a : (Status × Response) × C)
        → Holds a.1
        → (is_ok a.0.0 ≡ true → length x.keys ≡ length a.0.1.key_states)
        → Returns
            (elim (is_ok a.0.0) [
              | true ↦ take_response b a.0.1 x.keys t >>= λ y.
                  done (record { status = a.0.0; erased = y.0; own = y.1 }, a.1)
              | false ↦ done (record { status = a.0.0; erased = []; own = t }, a.1)
            ])
            (Sent look_up (send call b) order terms x t c)
    answered x t c a i h = elim (Bool-cases (is_ok a.0.0)) [
      | inl y ↦ rw (y) (
          rw (take_response-states b a.0.1 x.keys t g (h y)) (
            i,
            λ z. (refl, λ k. count-states k x.keys a.0.1.key_states t.tmp_out_states (h y)),
            λ n. cc (y, n),
          ))
      | inr n ↦ rw (n) (i, λ y. cc (y, n), λ z k. refl)
    ]

    pub send-Sent :
        (x : Group) (t : Taken) (c : C)
        → Holds c
        → ((k : Key) → count k x.keys ≤ count k (keys_of b))
        → Returns (send call b x t c) (Sent look_up (send call b) order terms x t c)
    unfolding send
    send-Sent x t c i fits =
        Returns->>= (λ q. size_of q ≡ length x.keys) (Sent look_up (send call b) order terms x t c)
          (request_of b x.keys) _ (request_of-size b x.keys g fits)
          λ q l.
            Returns->>=
              (λ a. Holds a.1 × (is_ok a.0.0 ≡ true → size_of q ≡ length a.0.1.key_states))
              (Sent look_up (send call b) order terms x t c) (call x.region q c) _
              (v.calls x.region q c i) λ a h. answered x t c a h.0 λ y. sym l ∙ h.1 y

    pub look_up-LookedUp :
        (k : Key) (c : C)
        → Holds c
        → Returns (look_up k c) (LookedUp look_up (send call b) order terms c)
    look_up-LookedUp k c i =
        Returns-map (λ x. Holds x.1 × Fails x.0) (LookedUp look_up (send call b) order terms c)
          (look_up k c) (λ x h. (h.0, λ s j. refl, h.1)) (v.looks k c i)
