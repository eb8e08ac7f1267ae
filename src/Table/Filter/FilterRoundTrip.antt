-- ===== src/Table/Filter/FilterRoundTrip.antt =====
-- src/table/bloom.cpp: encoding a filter and decoding it again.
use mini_lsm_cpp.Prelude.{
  ℕ, ◌+◌, ◌-◌, ◌<◌, ◌^◌, ◌≡◌, refl, sym, ap, ◌∙◌, true, [], ◌∷◌, ◌++◌, some, length, take, drop,
  Bytes, leb, le→leb, ==_refl, arith, length-append, append_assoc, append-nil, drop_append,
  take_append, get_elem?, get_elem?_of_drop,
}
use mini_lsm_cpp.Endian.{put_u32_be, read_u32_be}
use mini_lsm_cpp.Endian.RoundTrip.{length-put_u32_be, read-put_u32_be, put_u32_be-append}
use mini_lsm_cpp.Table.{Bloom}
use mini_lsm_cpp.Table.Filter.{encode, decode}

-- The bytes of a filter behind a buffer: its bits, their probes and the checksum.
pub encode-append :
    (crc32 : Bytes → ℕ) (b : Bloom) (buf : Bytes) → encode crc32 b buf ≡ buf ++ encode crc32 b []
unfolding encode
encode-append crc32 b buf =
    let body = b.filter ++ b.k ∷ [] in
    let e : buf ++ b.filter ++ b.k ∷ [] ≡ buf ++ body = append_assoc buf b.filter (b.k ∷ []) in
    let covered : drop (length buf) (buf ++ body) ≡ body = drop_append (length buf) buf body refl in
    let covered_nil : drop (length {A = ℕ} []) body ≡ body = refl in
    rw (e, covered)
      (put_u32_be-append (buf ++ body) (crc32 body)
        ∙ append_assoc buf body (put_u32_be [] (crc32 body))
        ∙ ap (λ c. buf ++ c) (sym (put_u32_be-append body (crc32 body))))

-- A filter comes back from its encoding.
pub decode-encode :
    (crc32 : Bytes → ℕ)
    → ((bs : Bytes) → crc32 bs < 2 ^ 32)
    → (b : Bloom) → decode crc32 (encode crc32 b []) ≡ some b
unfolding encode decode
decode-encode crc32 crc_lt b =
    let f = b.filter in
    let body = f ++ b.k ∷ [] in
    let sum = put_u32_be [] (crc32 body) in
    let ls = length-put_u32_be (crc32 body) in
    let raw = body ++ sum in
    let e : put_u32_be body (crc32 body) ≡ raw = put_u32_be-append body (crc32 body) in
    let whole : drop (length {A = ℕ} []) body ≡ body = refl in
    let split : raw ≡ f ++ (b.k ∷ sum) = append_assoc f (b.k ∷ []) sum in
    let size : length raw ≡ length f + 5 =
      omega (arith, length-append body sum, length-append f (b.k ∷ [])) in
    let enough : leb 5 (length f + 5) ≡ true = le→leb _ _ (omega arith) in
    let sum_at : drop (length f + 5 - 4) raw ≡ sum =
      drop_append (length f + 5 - 4) body sum (omega (arith, length-append f (b.k ∷ []))) in
    let read_sum : read_u32_be sum ≡ some (crc32 body) =
      rw (sym (append-nil sum)) (read-put_u32_be (crc32 body) [] (crc_lt body)) in
    let covered : take (length f + 5 - 4) raw ≡ body =
      take_append (length f + 5 - 4) body sum (omega (arith, length-append f (b.k ∷ []))) in
    let k_at : get_elem? raw (length f + 5 - 5) ≡ some b.k =
      get_elem?_of_drop (length f + 5 - 5) raw sum b.k (
        ap (drop (length f + 5 - 5)) split
        ∙ drop_append (length f + 5 - 5) f (b.k ∷ sum) (omega arith)) in
    let bits : take (length f + 5 - 5) raw ≡ f =
      ap (take (length f + 5 - 5)) split
      ∙ take_append (length f + 5 - 5) f (b.k ∷ sum) (omega arith) in
    rw (e, size, enough, sum_at, read_sum, covered, ==_refl (crc32 body), k_at, bits)
