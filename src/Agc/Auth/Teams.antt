-- ===== src/Agc/Auth/Teams.antt =====
-- The teams that the login keeps of those in the reply.
use hap_resigner.Prelude.{
  ◌≡◌, ◌≢◌, inl, inr, refl, sym, subst, Bool, true, false, ◌||◌, Option, none, some, List, [], ◌∷◌,
  if◌then◌else◌, bytes_eq, bytes_eq_iff, text_le, unwrap_or, All, Text, Bool-cases,
}
use mathlib.Core.List.{Memᴰ}
use mathlib.Core.List.Memᴰ.{head, tail, cases_cons, not-nil}
use hap_resigner.Effect.{}
use hap_resigner.Strings.{is_blank}
use hap_resigner.Agc.Auth.{Teams, Team, insert_team, team_loop}

abbrev pub keys : Teams → List Text
keys [] = []
keys ((id, name) ∷ teams) = id ∷ keys teams

-- The id and the name of a team are not empty.
abbrev pub IsNamedTeam : Text × Text → Type 0
IsNamedTeam t = (t.0 ≢ []) × (t.1 ≢ [])

pub not_blank : (t : Text) → is_blank t ≡ false → t ≢ []
not_blank t h e = cc (rw e at h)

insert-head :
    (id name key value : Text) (teams : Teams) (b : Bool)
    → bytes_eq id key ≡ b
    → (rest : Teams) → Memᴰ id (keys rest)
    → Memᴰ id (
        keys (
          if b
          then (id, name) ∷ teams
          else if text_le id key
          then (id, name) ∷ ((key, value) ∷ teams)
          else (key, value) ∷ rest))
insert-head id name key value teams true e rest h = head refl
insert-head id name key value teams false e rest h = by_order (text_le id key)
  where
    by_order :
        (c : Bool)
        → Memᴰ id (keys (if c then (id, name) ∷ ((key, value) ∷ teams) else (key, value) ∷ rest))
    by_order true = head refl
    by_order false = tail h

insert_team-keys : (id name : Text) (teams : Teams) → Memᴰ id (keys (insert_team id name teams))
unfolding insert_team
insert_team-keys id name [] = head refl
insert_team-keys id name ((key, value) ∷ teams) =
    insert-head id name key value teams (bytes_eq id key) refl (insert_team id name teams)
      (insert_team-keys id name teams)

insert-tail :
    (x id name key value : Text) (teams : Teams) (b : Bool)
    → bytes_eq id key ≡ b
    → (rest : Teams) → (Memᴰ x (keys teams) → Memᴰ x (keys rest))
    → Memᴰ x (key ∷ keys teams)
    → Memᴰ x (
        keys (
          if b
          then (id, name) ∷ teams
          else if text_le id key
          then (id, name) ∷ ((key, value) ∷ teams)
          else (key, value) ∷ rest))
insert-tail x id name key value teams true e rest h m =
    subst (λ k. Memᴰ x (k ∷ keys teams)) (sym ((bytes_eq_iff id key).0 e)) m
insert-tail x id name key value teams false e rest h m = by_order (text_le id key)
  where
    by_order :
        (c : Bool)
        → Memᴰ x (keys (if c then (id, name) ∷ ((key, value) ∷ teams) else (key, value) ∷ rest))
    by_order true = tail m
    by_order false = elim (cases_cons m) [ inl e ↦ head e | inr m' ↦ tail (h m') ]

insert_team-kept :
    (x id name : Text) (teams : Teams)
    → Memᴰ x (keys teams)
    → Memᴰ x (keys (insert_team id name teams))
unfolding insert_team
insert_team-kept x id name [] m = absurd (not-nil m)
insert_team-kept x id name ((key, value) ∷ teams) m =
    insert-tail x id name key value teams (bytes_eq id key) refl (insert_team id name teams)
      (insert_team-kept x id name teams) m

insert_team-named :
    (id name : Text) (teams : Teams)
    → IsNamedTeam (id, name)
    → All IsNamedTeam teams
    → All IsNamedTeam (insert_team id name teams)
unfolding insert_team
insert_team-named id name [] n h = (n, tt)
insert_team-named id name ((key, value) ∷ teams) n (k, h) =
    chosen (bytes_eq id key) (text_le id key) (insert_team-named id name teams n h)
  where
    chosen :
        (b c : Bool)
        → All IsNamedTeam (insert_team id name teams)
        → All IsNamedTeam (
            if b
            then (id, name) ∷ teams
            else if c
            then (id, name) ∷ ((key, value) ∷ teams)
            else (key, value) ∷ insert_team id name teams)
    chosen true c r = (n, h)
    chosen false true r = (n, (k, h))
    chosen false false r = (k, r)

-- What the loop has: the first team is a key of the map.
abbrev pub IsFirstTeam : Option Text → Teams → Type 0
IsFirstTeam none teams = Unit {0}
IsFirstTeam (some id) teams = Memᴰ id (keys teams) × (id ≢ [])

first-inserted :
    (first : Option Text) (id name : Text) (teams : Teams)
    → id ≢ []
    → IsFirstTeam first teams
    → IsFirstTeam (some (unwrap_or first id)) (insert_team id name teams)
first-inserted none id name teams n h = (insert_team-keys id name teams, n)
first-inserted (some x) id name teams n (m, f) = (insert_team-kept x id name teams m, f)

pub team_loop-IsFirstTeam :
    (more : List Team) (first : Option Text) (teams : Teams)
    → IsFirstTeam first teams
    → All IsNamedTeam teams
    → IsFirstTeam (team_loop more first teams).1 (team_loop more first teams).0
      × All IsNamedTeam (team_loop more first teams).0
unfolding team_loop
team_loop-IsFirstTeam [] first teams f h = (f, h)
team_loop-IsFirstTeam (team ∷ more) first teams f h =
    elim (Bool-cases (is_blank team.id || is_blank team.name)) [
      | inl e ↦ rw e (team_loop-IsFirstTeam more first teams f h)
      | inr e ↦
          let (i, n) = neither (is_blank team.id) (is_blank team.name) e in
          rw e (
            team_loop-IsFirstTeam more (some (unwrap_or first team.id))
              (insert_team team.id team.name teams)
              (first-inserted first team.id team.name teams (not_blank team.id i) f)
              (insert_team-named team.id team.name teams
                (not_blank team.id i, not_blank team.name n) h))
    ]
  where
    neither : (a b : Bool) → (a || b) ≡ false → (a ≡ false) × (b ≡ false)
    neither true b k = cc
    neither false b k = (refl, k)
