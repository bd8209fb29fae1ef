-- ===== src/IndexCache/Keys.antt =====
-- The keys of the cache of indexes: a schema id and a name are read back from them.
use dingo_sdk.Base.{
  ℕ, zero, suc, ◌*◌, ◌/◌, ◌%◌, ◌^◌, ◌<◌, ◌∷◌, ◌++◌, take, drop, ◌≡◌, refl, ap, ◌∙◌, arith,
}
use dingo_sdk.Key.{Key}
use dingo_sdk.IndexCache.{le_bytes, of_le_bytes, encode_key, decode_key}

take-le_bytes : (w n : ℕ) (xs : Key) → take w (le_bytes w n ++ xs) ≡ le_bytes w n
unfolding le_bytes
take-le_bytes zero n xs = refl
take-le_bytes (suc w) n xs = ap (◌∷◌ (n % 256)) (take-le_bytes w (n / 256) xs)

drop-le_bytes : (w n : ℕ) (xs : Key) → drop w (le_bytes w n ++ xs) ≡ xs
unfolding le_bytes
drop-le_bytes zero n xs = refl
drop-le_bytes (suc w) n xs = drop-le_bytes w (n / 256) xs

-- How many integers have `w` bytes.
abbrev bound : ℕ → ℕ
bound zero = 1
bound (suc w) = 256 * bound w

of_le_bytes-le_bytes : (w n : ℕ) → n < bound w → of_le_bytes (le_bytes w n) ≡ n
unfolding le_bytes of_le_bytes
of_le_bytes-le_bytes zero n h = omega (arith, h)
of_le_bytes-le_bytes (suc w) n h =
    let back : of_le_bytes (le_bytes w (n / 256)) ≡ n / 256 =
      of_le_bytes-le_bytes w (n / 256) (omega (arith, h)) in
    omega (arith, back)

-- DecodeVectorIndexCacheKey gives back the schema id, which has 64 bits, and the name that
-- EncodeVectorIndexCacheKey was given.
pub decode_key-encode_key :
    (schema_id : ℕ) (index_name : Key)
    → schema_id < 2 ^ 64
    → decode_key (encode_key schema_id index_name) ≡ (schema_id, index_name)
unfolding decode_key encode_key
decode_key-encode_key s n h =
    ap (λ x. (of_le_bytes x, drop 8 (le_bytes 8 s ++ n))) (take-le_bytes 8 s n)
    ∙ ap (λ x. (of_le_bytes (le_bytes 8 s), x)) (drop-le_bytes 8 s n)
    ∙ ap (λ x. (x, n)) (of_le_bytes-le_bytes 8 s h)
