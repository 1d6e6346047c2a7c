-- ===== src/Agc/Auth/Received.antt =====
-- The bound on a callback request.
use hap_resigner.Prelude.{
  ℕ, ◌*◌, ◌≤◌, ◌≡◌, refl, sym, ◌∙◌, Bool, true, false, ◌||◌, List, [], ◌∷◌, ◌++◌, append_assoc, ltb,
  Result, ok, err, length, length-append, All, Bytes, Text, Bool-cases, inl, inr, arith,
  ok-injective, subst,
}
use hap_resigner.Strings.{}
use hap_resigner.Agc.Auth.Callback.{is_whole, read_loop, read_request}

-- What the stream gives before it ends or fails.
abbrev pub received : List (Result Text Bytes) → Bytes
received [] = []
received (err e ∷ reads) = []
received (ok [] ∷ reads) = []
received (ok (b ∷ bs) ∷ reads) = (b ∷ bs) ++ received reads

-- A read fills at most the buffer.
abbrev pub FitsBuffer : Result Text Bytes → Type 0
FitsBuffer (ok b) = length b ≤ 2048
FitsBuffer (err e) = Unit {0}

stopped :
    (request more : Bytes) {out : Bytes}
    → length request ≤ 67584
    → ◌≡◌ {A = Result Text Bytes} (ok request) (ok out)
    → (length out ≤ 67584) × ((behind : Bytes) × (request ++ more ≡ out ++ behind))
stopped request more n h =
    subst (λ o. (length o ≤ 67584) × ((behind : Bytes) × (request ++ more ≡ o ++ behind)))
      (ok-injective h) (n, (more, refl))

small : (whole : Bool) (n : ℕ) → (whole || ltb (64 * 1024) n) ≡ false → n ≤ 65536
small true n h = cc (h)
small false n h = ground arith

read_loop-bounded :
    (request : Bytes) (reads : List (Result Text Bytes)) {out : Bytes}
    → All FitsBuffer reads
    → length request ≤ 65536
    → read_loop request reads ≡ ok out
    → (length out ≤ 67584) × ((behind : Bytes) × (request ++ received reads ≡ out ++ behind))
unfolding read_loop
read_loop-bounded request [] f n h = stopped request [] (omega arith) h
read_loop-bounded request (err e ∷ reads) f n h = cc (h)
read_loop-bounded request (ok [] ∷ reads) f n h = stopped request [] (omega arith) h
read_loop-bounded request (ok (b ∷ bs) ∷ reads) (f, fs) n h =
    elim (Bool-cases
      (is_whole (request ++ (b ∷ bs)) || ltb (64 * 1024) (length (request ++ (b ∷ bs))))) [
        | inl e ↦
            let (size, (behind, shape)) =
              stopped (request ++ (b ∷ bs)) (received reads)
                (omega (arith, n, f, length-append request (b ∷ bs))) (rw e at h) in
            (size, (behind, sym (append_assoc request (b ∷ bs) (received reads)) ∙ shape))
        | inr e ↦
            let (size, (behind, shape)) =
              read_loop-bounded (request ++ (b ∷ bs)) reads fs
                (small (is_whole (request ++ (b ∷ bs))) (length (request ++ (b ∷ bs))) e)
                (rw e at h) in
            (size, (behind, sym (append_assoc request (b ∷ bs) (received reads)) ∙ shape))
      ]

-- Whatever the browser sends, `read_request` returns at most 66 KiB, and what it returns is what the
-- stream gave first. A read fills at most the buffer of 2 KiB.
pub read_request-bounded :
    (reads : List (Result Text Bytes)) {out : Bytes}
    → All FitsBuffer reads
    → read_request reads ≡ ok out
    → (length out ≤ 67584) × ((behind : Bytes) × (received reads ≡ out ++ behind))
unfolding read_request
read_request-bounded reads f h = read_loop-bounded [] reads f (omega arith) h
