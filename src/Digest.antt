-- ===== src/Digest.antt =====
-- src/hap/digest.rs: the content digest over chunks of one MiB. SHA-256 is a parameter.
use hap_resigner.Prelude.{
  ℕ, suc, ◌+◌, ◌*◌, ◌%◌, ◌^◌, ◌≡◌, refl, ap, List, [], ◌∷◌, ◌++◌, arith, length, length-append,
  Bytes, to_le, chunks, chunks_count, flatten, div_ceil,
}

abbrev pub chunk_size : ℕ
chunk_size = 1024 * 1024

abbrev pub chunk_prefix : ℕ
chunk_prefix = 0xa5

abbrev pub top_level_prefix : ℕ
top_level_prefix = 0x5a

-- `.map(|segment| segment.len().div_ceil(CHUNK_SIZE)).sum()`.
unfoldable pub count_chunks : List Bytes → ℕ
count_chunks [] = 0
count_chunks (s ∷ ss) = div_ceil (length s) chunk_size + count_chunks ss

-- What is hashed of one chunk; `as u32` wraps.
unfoldable pub chunk_input : Bytes → Bytes
chunk_input chunk = chunk_prefix ∷ (to_le 4 (length chunk % 2 ^ 32) ++ chunk)

module _ (sha256 : Bytes → Bytes) where
  unfoldable pub digest_chunks : List Bytes → List Bytes
  digest_chunks [] = []
  digest_chunks (c ∷ cs) = sha256 (chunk_input c) ∷ digest_chunks cs

  -- The two loops, segment by segment.
  unfoldable pub chunk_digests : List Bytes → List Bytes
  chunk_digests [] = []
  chunk_digests (s ∷ ss) = digest_chunks (chunks chunk_size s) ++ chunk_digests ss

  -- The updates of the last hasher, one behind the other.
  unfoldable pub top_input : List Bytes → List Bytes → Bytes
  top_input segments optional_values =
      top_level_prefix
      ∷ (to_le 4 (count_chunks segments % 2 ^ 32)
          ++ (flatten (chunk_digests segments) ++ flatten optional_values))

  unfoldable pub compute_content_digest : List Bytes → List Bytes → Bytes
  compute_content_digest segments optional_values = sha256 (top_input segments optional_values)

  length-digest_chunks : (cs : List Bytes) → length (digest_chunks cs) ≡ length cs
  unfolding digest_chunks
  length-digest_chunks [] = refl
  length-digest_chunks (c ∷ cs) = ap suc (length-digest_chunks cs)

  -- The number that is hashed before the chunk digests, and for which the vector is sized, is the
  -- number of digests that follow: a count by division agrees with the chunks that are cut.
  pub length-chunk_digests :
      (segments : List Bytes) → length (chunk_digests segments) ≡ count_chunks segments
  unfolding count_chunks chunk_digests
  length-chunk_digests [] = refl
  length-chunk_digests (s ∷ ss) =
      let digests = digest_chunks (chunks chunk_size s) in
      let count = chunks_count chunk_size s (omega arith) in
      ground (
        arith,
        length-append digests (chunk_digests ss),
        length-digest_chunks (chunks chunk_size s),
        length-chunk_digests ss,
        count,
      )
