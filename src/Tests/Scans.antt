-- ===== src/Tests/Scans.antt =====
-- The codec of keys, and a scan over a transaction's own writes.
use dingo_sdk.Base.{some, ℕ, [], ◌∷◌, ◌≡◌, refl, arith, inl, inr}
use dingo_sdk.Key.{key_ltb, key_eqb}
use dingo_sdk.Outcome.{done}
use dingo_sdk.Codec.{bytes_to_hex_string, hex_string_to_bytes, string_to_hex}
use dingo_sdk.Codec.Hex.{hex_string_to_bytes-hex}
use dingo_sdk.Txn.Buffer.{Mutation, put_mutation, delete_mutation}
use dingo_sdk.Txn.Scan.{Row, process_scan_state}
use dingo_sdk.Txn.Scan.Rows.{
  filled, value_for, process_scan_state-filled, process_scan_state_drops_row,
}

abbrev row : ℕ → Row
row k = (k ∷ [], b'v' ∷ [])

abbrev put_b : Mutation
put_b = record { type = put_mutation; key = b'b' ∷ []; value = b'w' ∷ [] }

abbrev delete_a : Mutation
delete_a = record { type = delete_mutation; key = b'a' ∷ []; value = [] }

process_scan_state-filled_example :
    process_scan_state 10 [] (put_b ∷ []) (row b'a' ∷ row b'b' ∷ []) []
    ≡ done (filled 10 [] (value_for (put_b ∷ [])) (row b'a' ∷ row b'b' ∷ []) [])
unfolding key_ltb key_eqb
process_scan_state-filled_example =
    process_scan_state-filled 10 [] (put_b ∷ []) (row b'a' ∷ row b'b' ∷ []) []
      (inr (refl, inl (refl, refl, tt))) (tt, tt) ((refl, tt), (tt, tt)) (omega arith)

process_scan_state_drops_row_example :
    process_scan_state 10 [] (delete_a ∷ []) (row b'a' ∷ row b'b' ∷ row b'c' ∷ []) []
    ≡ process_scan_state 10 [] [] (row b'c' ∷ []) []
unfolding key_ltb
process_scan_state_drops_row_example =
    process_scan_state_drops_row 10 [] delete_a (b'v' ∷ []) (row b'b') (row b'c' ∷ []) [] refl refl
      refl

hex_string_to_bytes-hex_example :
    (hex_string_to_bytes (bytes_to_hex_string (0 ∷ 171 ∷ 255 ∷ [])) ≡ some (0 ∷ 171 ∷ 255 ∷ []))
    × (hex_string_to_bytes (string_to_hex (0 ∷ 171 ∷ 255 ∷ [])) ≡ some (0 ∷ 171 ∷ 255 ∷ []))
hex_string_to_bytes-hex_example =
    hex_string_to_bytes-hex (0 ∷ 171 ∷ 255 ∷ []) (omega arith, (omega arith, (omega arith, tt)))
