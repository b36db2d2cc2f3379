-- ===== src/Database/Tables/Laws.antt =====
-- The tables in memory meet the laws that IsDatabase states of Postgres.
use game_x.Base.{
  ℕ, ◌+◌, ◌≡◌, refl, ap, sym, ◌∙◌, ◌⊎◌, inl, inr, true, false, List, [], ◌∷◌, ◌++◌, some, ltb,
  arith, subst, Bool-cases,
}
use game_x.Base.Bytes.{Bytes, same_text, same_text-eq, same_text_refl}
use game_x.Base.Int.{ℤ, same_int, same_int_refl}
use mathlib.Core.Option
use mathlib.Core.Bool.{false≢true}
use game_x.Database.{IsDatabase, SessionRow, CharacterRow}
use game_x.Database.Tables.{
  owners, joined, without, first_character, write_row, has_token, insert_row, insert_token, tables,
  Token, Account, Character, Tables,
}

joined-has_token :
    (now : ℕ) (accounts : List Account) (rs : List Token) (t : Bytes) (row : SessionRow)
    (rows : List SessionRow)
    → joined now accounts rs t ≡ row ∷ rows
    → has_token t rs ≡ true
joined-has_token now accounts [] t row rows h = cc
joined-has_token now accounts (r ∷ rs) t row rows h =
    ground (arith, joined-has_token now accounts rs t row rows)

without-has_token : (t : Bytes) (rs : List Token) → has_token t (without t rs) ≡ false
without-has_token t [] = refl
without-has_token t (r ∷ rs) = ground (arith, without-has_token t rs)

has_token-without :
    (t u : Bytes) (rs : List Token) → has_token t (without u rs) ≡ true → has_token t rs ≡ true
has_token-without t u [] h = h
has_token-without t u (r ∷ rs) h = ground (arith, has_token-without t u rs)

has_token-append :
    (t : Bytes) (rs : List Token) (r : Token)
    → has_token t (rs ++ (r ∷ [])) ≡ true
    → (same_text r.token t ≡ true) ⊎ (has_token t rs ≡ true)
has_token-append t [] r h = ground arith
has_token-append t (x ∷ rs) r h = ground (arith, has_token-append t rs r)

-- A row of the table `sessions` with this token and account, and a row of `characters`.
abbrev Owned : Bytes → ℤ → List Token → Type 0
Owned t a [] = ⊥
Owned t a (r ∷ rs) = ((r.token ≡ t) × (r.account_id ≡ a)) ⊎ Owned t a rs

abbrev Stored : CharacterRow → List Character → Type 0
Stored row [] = ⊥
Stored row (c ∷ cs) = (c.row ≡ row) ⊎ Stored row cs

Owned-has_token : (t : Bytes) (a : ℤ) (rs : List Token) → Owned t a rs → has_token t rs ≡ true
Owned-has_token t a [] o = absurd o
Owned-has_token t a (r ∷ rs) (inl (e, _)) =
    let same : same_text r.token t ≡ true = ap (λ u. same_text u t) e ∙ same_text_refl t in
    ground (arith, same)
Owned-has_token t a (r ∷ rs) (inr o) = let later = Owned-has_token t a rs o in ground (arith, later)

Owned-append :
    (t : Bytes) (a : ℤ) (rs : List Token) (r : Token)
    → Owned t a (rs ++ (r ∷ []))
    → Owned t a rs ⊎ (r.account_id ≡ a)
Owned-append t a [] r (inl (_, e)) = inr e
Owned-append t a [] r (inr o) = absurd o
Owned-append t a (x ∷ rs) r (inl e) = inl (inl e)
Owned-append t a (x ∷ rs) r (inr o) = elim (Owned-append t a rs r o) [
  | inl old ↦ inl (inr old)
  | inr e ↦ inr e
]

owners-cases :
    (accounts : List Account) (id : ℤ) (behind : List SessionRow) (row : SessionRow)
    (rows : List SessionRow)
    → owners accounts id ++ behind ≡ row ∷ rows
    → (row.account_id ≡ id) ⊎ (behind ≡ row ∷ rows)
owners-cases [] id behind row rows h = inr h
owners-cases (a ∷ as') id behind row rows h = elim (Bool-cases (same_int a.id id)) [
  | inl e ↦ inl (ground arith)
  | inr e ↦ owners-cases as' id behind row rows (ground arith)
]

joined-Owned :
    (now : ℕ) (accounts : List Account) (rs : List Token) (t : Bytes) (row : SessionRow)
    (rows : List SessionRow)
    → joined now accounts rs t ≡ row ∷ rows
    → Owned t row.account_id rs
joined-Owned now accounts [] t row rows h = cc
joined-Owned now accounts (r ∷ rs) t row rows h = elim (Bool-cases (same_text r.token t)) [
  | inr e ↦ inr (joined-Owned now accounts rs t row rows (ground arith))
  | inl e ↦ elim (Bool-cases (ltb now r.expires_at)) [
    | inr late ↦ inr (joined-Owned now accounts rs t row rows (ground arith))
    | inl live ↦
        elim (owners-cases accounts r.account_id (joined now accounts rs t) row rows
          (ground arith)) [
            | inl own ↦ inl (same_text-eq r.token t e, sym own)
            | inr later ↦ inr (joined-Owned now accounts rs t row rows later)
          ]
  ]
]

insert_token-Owned :
    (s s' : Tables) (t : Bytes) (a b : ℤ)
    → insert_token s t a ≡ some s'
    → Owned t b s'.sessions
    → b ≡ a
insert_token-Owned s s' t a b h o =
    let row : Token = record { token = t; account_id = a; expires_at = s.now + 300 } in
    let same : s'.sessions ≡ s.sessions ++ (row ∷ []) = ground arith in
    let fresh : has_token t s.sessions ≡ false = ground arith in
    elim (Owned-append t b s.sessions row (subst (Owned t b) same o)) [
      | inl old ↦ absurd (false≢true (sym fresh ∙ Owned-has_token t b s.sessions old))
      | inr e ↦ sym e
    ]

first_character-Stored :
    (cs : List Character) (account : ℤ) (row : CharacterRow) (rows : List CharacterRow)
    → first_character cs account ≡ row ∷ rows
    → Stored row cs
first_character-Stored [] account row rows h = cc
first_character-Stored (c ∷ cs) account row rows h =
    elim (Bool-cases (same_int c.account_id account)) [
      | inl e ↦ inl (ground arith)
      | inr e ↦ inr (first_character-Stored cs account row rows (ground arith))
    ]

Stored-write_row :
    (cs : List Character) (r row : CharacterRow)
    → Stored row (write_row r.id r cs)
    → row.id ≡ r.id
    → row ≡ r
Stored-write_row [] r row o e = absurd o
Stored-write_row (c ∷ cs) r row (inr o) e = Stored-write_row cs r row o e
Stored-write_row (c ∷ cs) r row (inl o) e = elim (Bool-cases (same_int c.row.id r.id)) [
  | inl same ↦ ground arith
  | inr other ↦
      let kept : c.row ≡ row = ground arith in
      absurd (
        false≢true (
          sym other
          ∙ (ap (λ q. same_int q.id r.id) kept
              ∙ (ap (λ i. same_int i r.id) e ∙ same_int_refl r.id))))
]

insert_row-sessions :
    (s s' : Tables) (account : ℤ) (name : Bytes) (row : CharacterRow)
    → insert_row s account name ≡ some (row, s')
    → s'.sessions ≡ s.sessions
insert_row-sessions s s' account name row h = ground arith

insert_token-has_token :
    (s s' : Tables) (t u : Bytes) (account : ℤ)
    → insert_token s u account ≡ some s'
    → has_token t s'.sessions ≡ true
    → (t ≡ u) ⊎ (has_token t s.sessions ≡ true)
insert_token-has_token s s' t u account h k =
    let row : Token = record { token = u; account_id = account; expires_at = s.now + 300 } in
    let same : s'.sessions ≡ s.sessions ++ (row ∷ []) = ground arith in
    elim (has_token-append t s.sessions row (sym (ap (has_token t) same) ∙ k)) [
      | inl e ↦ inl (sym (same_text-eq u t e))
      | inr old ↦ inr old
    ]

pub tables-IsDatabase : IsDatabase tables
unfolding tables
tables-IsDatabase = record {
  HasToken = λ s t. has_token t s.sessions ≡ true;
  select_session_row =
      λ s t row rows h. joined-has_token s.now s.accounts s.sessions t row rows (ground arith);
  delete_session_gone = λ s s' t h k.
      let e : s'.sessions ≡ without t s.sessions = ground arith in
      false≢true (sym (without-has_token t s.sessions) ∙ (sym (ap (has_token t) e) ∙ k));
  delete_session_keeps = λ s s' t u h k.
      let e : s'.sessions ≡ without u s.sessions = ground arith in
      has_token-without t u s.sessions (sym (ap (has_token t) e) ∙ k);
  begin_keeps = λ s s' t h k. ground arith;
  commit_keeps = λ s s' t h k. ground arith;
  insert_character_keeps =
      λ s s' t a name row h k. sym (ap (has_token t) (insert_row-sessions s s' a name row h)) ∙ k;
  update_character_keeps = λ s s' t id x y z h k.
      let e : s'.sessions ≡ s.sessions = ground arith in sym (ap (has_token t) e) ∙ k;
  insert_session_adds = insert_token-has_token;
  HasOwner = λ s t a. Owned t a s.sessions;
  select_session_owner =
      λ s t row rows h. joined-Owned s.now s.accounts s.sessions t row rows (ground arith);
  insert_session_owner = insert_token-Owned;
  begin_owner =
      λ s s' t a h. subst (λ v. Owned t a v.sessions) (sym (Option.some-injective s s' h));
  commit_owner =
      λ s s' t a h. subst (λ v. Owned t a v.sessions) (sym (Option.some-injective s s' h));
  HasCharacter = λ s row. Stored row s.characters;
  select_character_row =
      λ s a row rows h. first_character-Stored s.characters a row rows (ground arith);
  update_character_row = λ s s' id x y z row h o own.
      let r : CharacterRow = record { id = id; pos_x = x; pos_y = y; pos_z = z } in
      let e : s'.characters ≡ write_row id r s.characters = ground arith in
      Stored-write_row s.characters r row (subst (Stored row) e o) own;
  begin_row =
      λ s s' row h. subst (λ v. Stored row v.characters) (sym (Option.some-injective s s' h));
  commit_row =
      λ s s' row h. subst (λ v. Stored row v.characters) (sym (Option.some-injective s s' h));
  delete_session_row = λ s s' t row h o.
      let e : s'.characters ≡ s.characters = ground arith in subst (Stored row) e o;
}
