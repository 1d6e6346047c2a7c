-- ===== src/Effect.antt =====
-- Fallible code over a state that survives an error: what `&self` methods with I/O do. The `?`
-- operator is `>>=`, and a post-condition says what holds after a value and after an error.
use hap_resigner.Prelude.{ap, ◌≡◌, refl, subst, Result, ok, err, map_err}

abbrev pub Effect : Type 0 → Type 0 → Type 0 → Type 0
Effect W E A = W → Result E A × W

module _ {W E A : Type 0} where
  abbrev pub pure : A → Effect W E A
  pure a w = (ok a, w)

  abbrev pub lift : Result E A → Effect W E A
  lift r w = (r, w)

  abbrev pub continue_with : {B : Type 0} → (A → Effect W E B) → Result E A × W → Result E B × W
  continue_with f (ok a, w) = f a w
  continue_with f (err e, w) = (err e, w)

  -- `map_err` of a call that returns, and the same with `?`.
  abbrev pub map_error : {F : Type 0} → (E → F) → Effect W E A → Effect W F A
  map_error f m w = (map_err f (m w).0, (m w).1)

  -- A call whose result is matched and not passed on.
  abbrev pub attempt : {F : Type 0} → Effect W E A → Effect W F (Result E A)
  attempt m w = (ok (m w).0, (m w).1)

infixl 5 ◌>>=◌ ◌>>◌
abbrev pub ◌>>=◌ : {W E A B : Type 0} → Effect W E A → (A → Effect W E B) → Effect W E B
◌>>=◌ m f w = continue_with f (m w)

abbrev pub ◌>>◌ : {W E A B : Type 0} → Effect W E A → Effect W E B → Effect W E B
m >> k = m >>= λ _. k

-- A call on one part of a state, and on the other.
abbrev pub on_first : {W V E A : Type 0} → Effect W E A → Effect (W × V) E A
on_first m w = ((m w.0).0, ((m w.0).1, w.1))

abbrev pub on_second : {W V E A : Type 0} → Effect V E A → Effect (W × V) E A
on_second m w = ((m w.1).0, (w.0, (m w.1).1))

-- What holds after a value, and after an error.
abbrev pub Post : {W E A : Type 0} → (A → W → Type 0) → (W → Type 0) → Result E A × W → Type 0
Post Q R (ok a, w) = Q a w
Post Q R (err e, w) = R w

-- Started in a state of `P`, the call ends in `Q` with its value or in `R` with an error.
pub record Triple {W E A : Type 0} (P : W → Type 0) (m : Effect W E A) (Q : A → W → Type 0)
    (R : W → Type 0) : Type 0 where
  pub run : (w : W) → P w → Post Q R (m w)

module _ {W E A B : Type 0} where
  continue-Post :
      (Q : A → W → Type 0) (S : B → W → Type 0) (R : W → Type 0) (f : A → Effect W E B)
      (x : Result E A × W)
      → Post Q R x
      → ((a : A) → Triple (Q a) (f a) S R)
      → Post S R (continue_with f x)
  continue-Post Q S R f (ok a, w) h k = (k a).run w h
  continue-Post Q S R f (err e, w) h k = h

  pub bind-Triple :
      {P : W → Type 0} {Q : A → W → Type 0} {S : B → W → Type 0} {R : W → Type 0} {m : Effect W E A}
      {f : A → Effect W E B}
      → Triple P m Q R
      → ((a : A) → Triple (Q a) (f a) S R)
      → Triple P (m >>= f) S R
  bind-Triple {Q = Q} {S = S} {R = R} {m = m} {f = f} h k = record {
    run = λ w p. continue-Post Q S R f (m w) (h.run w p) k;
  }

module _ {W E A : Type 0} where
  weaken-Post :
      (Q Q' : A → W → Type 0) (R R' : W → Type 0) (x : Result E A × W)
      → ((a : A) (w : W) → Q a w → Q' a w)
      → ((w : W) → R w → R' w)
      → Post Q R x
      → Post Q' R' x
  weaken-Post Q Q' R R' (ok a, w) f g h = f a w h
  weaken-Post Q Q' R R' (err e, w) f g h = g w h

  mapped-Post :
      {F : Type 0} (Q : A → W → Type 0) (R : W → Type 0) (f : E → F) (x : Result E A × W)
      → Post Q R x
      → Post Q R (map_err f x.0, x.1)
  mapped-Post Q R f (ok a, v) k = k
  mapped-Post Q R f (err e, v) k = k

  pub weaken-Triple :
      {P P' : W → Type 0} {Q Q' : A → W → Type 0} {R R' : W → Type 0} {m : Effect W E A}
      → Triple P m Q R
      → ((w : W) → P' w → P w)
      → ((a : A) (w : W) → Q a w → Q' a w)
      → ((w : W) → R w → R' w)
      → Triple P' m Q' R'
  weaken-Triple {Q = Q} {Q' = Q'} {R = R} {R' = R'} {m = m} h e f g = record {
    run = λ w p. weaken-Post Q Q' R R' (m w) f g (h.run w (e w p));
  }

  pub map_error-Triple :
      {F : Type 0} {P : W → Type 0} {Q : A → W → Type 0} {R : W → Type 0} (f : E → F)
      {m : Effect W E A}
      → Triple P m Q R
      → Triple P (map_error f m) Q R
  map_error-Triple {Q = Q} {R = R} f {m = m} h = record {
    run = λ w p. mapped-Post Q R f (m w) (h.run w p);
  }

  pub pure-Triple :
      {P R : W → Type 0} {Q : A → W → Type 0} (a : A)
      → ((w : W) → P w → Q a w)
      → Triple {E = E} P (pure a) Q R
  pure-Triple a h = record { run = h }

  -- The value of a step that does not touch the state.
  pub lift-Triple :
      {P : W → Type 0} (r : Result E A) → Triple P (lift r) (λ a w. P w × (r ≡ ok a)) P
  lift-Triple {P = P} r = record { run = lifted r }
    where
      lifted : (r : Result E A) (w : W) → P w → Post (λ a v. P v × (r ≡ ok a)) P (r, w)
      lifted (ok a) w p = (p, refl)
      lifted (err e) w p = p

  -- A call whose result is matched ends in the post-condition of its result.
  pub attempt-Triple :
      {F : Type 0} {P : W → Type 0} {Q : A → W → Type 0} {R S : W → Type 0} {m : Effect W E A}
      → Triple P m Q R
      → Triple {E = F} P (attempt m) (λ (r : Result E A) w. Post Q R (r, w)) S
  attempt-Triple h = record { run = λ w p. h.run w p }

  -- A call that ends with a value ends in the post-condition of the value, and so with an error.
  pub Triple-ok :
      {P : W → Type 0} {Q : A → W → Type 0} {R : W → Type 0} {m : Effect W E A}
      → Triple P m Q R
      → (w : W) → P w
      → (a : A) (w' : W) → m w ≡ (ok a, w')
      → Q a w'
  Triple-ok {Q = Q} {R = R} h w p a w' e = subst (Post Q R) e (h.run w p)

  both-Post : (I : W → Type 0) (x : Result E A × W) → Post (λ a w. I w) I x → I x.1
  both-Post I (ok a, w) h = h
  both-Post I (err e, w) h = h

  pub Triple-kept :
      {P I : W → Type 0} {m : Effect W E A} → Triple P m (λ a w. I w) I → (w : W) → P w → I (m w).1
  Triple-kept {I = I} {m = m} h w p = both-Post I (m w) (h.run w p)

-- Behind a step without a state, its value is known.
pub known-Triple :
    {W E A B : Type 0} {P R : W → Type 0} {S : B → W → Type 0} {r : Result E A}
    {f : A → Effect W E B}
    → ((w : W) → P w → R w)
    → ((a : A) → r ≡ ok a → Triple P (f a) S R)
    → Triple P (lift r >>= f) S R
known-Triple {r = ok a} e h = h a refl
known-Triple {r = err x} e h = record { run = λ w p. e w p }

-- A fact that the state does not speak of can be taken out of the pre-condition.
pub fact-Triple :
    {W E A : Type 0} {P R : W → Type 0} {F : Type 0} {Q : A → W → Type 0} {m : Effect W E A}
    → (F → Triple P m Q R)
    → Triple (λ w. P w × F) m Q R
fact-Triple h = record { run = λ w k. (h k.1).run w k.0 }

module _ {W V E A : Type 0} where
  first-Post :
      (Q : A → W → Type 0) (R : W → Type 0) (x : Result E A × W) (v : V)
      → Post Q R x
      → Post (λ a (w : W × V). Q a w.0) (λ (w : W × V). R w.0) (x.0, (x.1, v))
  first-Post Q R (ok a, w) v h = h
  first-Post Q R (err e, w) v h = h

  pub on_first-Triple :
      {P R : W → Type 0} {Q : A → W → Type 0} {m : Effect W E A}
      → Triple P m Q R
      → Triple (λ (w : W × V). P w.0) (on_first m) (λ a (w : W × V). Q a w.0) (λ (w : W × V). R w.0)
  on_first-Triple {R = R} {Q = Q} {m = m} h = record {
    run = λ w p. first-Post Q R (m w.0) w.1 (h.run w.0 p);
  }

  second-Post :
      (P : W → Type 0) (w : W) (x : Result E A × V)
      → P w
      → Post (λ (a : A) (u : W × V). P u.0) (λ (u : W × V). P u.0) (x.0, (w, x.1))
  second-Post P w (ok a, v) h = h
  second-Post P w (err e, v) h = h

  -- A call on the other part says nothing of this one, and keeps it.
  pub on_second-Triple :
      (P : W → Type 0) (m : Effect V E A)
      → Triple (λ (w : W × V). P w.0) (on_second m) (λ a (w : W × V). P w.0) (λ (w : W × V). P w.0)
  on_second-Triple P m = record { run = λ w p. second-Post P w.0 (m w.1) p }

-- A pre-condition with a witness is the pre-condition at each.
pub each-Triple :
    {W E A X : Type 0} {P : X → W → Type 0} {R : W → Type 0} {Q : A → W → Type 0} {m : Effect W E A}
    → ((x : X) → Triple (P x) m Q R)
    → Triple (λ w. (x : X) × P x w) m Q R
each-Triple h = record { run = λ w k. (h k.0).run w k.1 }

-- Nothing is asked of the state.
abbrev pub Always : {W : Type 0} → W → Type 0
Always w = Unit {0}

-- A call of which nothing is known.
pub any-Triple : {W E A : Type 0} (m : Effect W E A) → Triple Always m (λ a w. Unit {0}) Always
any-Triple {W = W} {E = E} {A = A} m = record { run = λ w p. ended (m w) }
  where
    ended : (x : Result E A × W) → Post (λ a w. Unit {0}) Always x
    ended (ok a, w) = tt
    ended (err e, w) = tt

-- A value of a call is one that the call returned in some state.
pub ran-Triple :
    {W E A : Type 0} (m : Effect W E A)
    → Triple Always m (λ a after. (before : W) × (m before ≡ (ok a, after))) Always
ran-Triple {W = W} {E = E} {A = A} m = record { run = λ w p. ended w (m w) refl }
  where
    ended :
        (w : W) (x : Result E A × W)
        → m w ≡ x
        → Post (λ a after. (before : W) × (m before ≡ (ok a, after))) Always x
    ended w (ok a, v) h = (w, h)
    ended w (err e, v) h = tt

-- A chain that returns a value: its first step returns one, and the rest returns on it.
pub effect_chain-eq-ok :
    {W E A B : Type 0} (m : Effect W E A) (f : A → Effect W E B) (w : W) {b : B} {w' : W}
    → (m >>= f) w ≡ (ok b, w')
    → (a : A) × (v : W) × (m w ≡ (ok a, v)) × (f a v ≡ (ok b, w'))
effect_chain-eq-ok {W = W} {E = E} {A = A} {B = B} m f w {b = b} {w' = w'} h = by_first (m w) refl h
  where
    by_first :
        (x : Result E A × W)
        → m w ≡ x
        → continue_with f x ≡ (ok b, w')
        → (a : A) × (v : W) × (m w ≡ (ok a, v)) × (f a v ≡ (ok b, w'))
    by_first (ok a, v) e k = (a, v, e, k)
    by_first (err e', v) e k = absurd (error_is_no_value (ap (λ (x : Result E B × W). x.0) k))
      where
        error_is_no_value : ◌≡◌ {A = Result E B} (err e') (ok b) → ⊥
        error_is_no_value k = cc (k)
