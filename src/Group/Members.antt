-- ===== src/Group/Members.antt =====
-- crates/messenger/src/group.rs: who is in the group after a change.
use shadowgram.Base.{
  ℕ, ◌+◌, ◌≡◌, ◌≢◌, ◌⊎◌, refl, ap, ◌∙◌, String, Bool, true, false, not, ◌&&◌, none, some, List, [],
  ◌∷◌, ◌++◌, Bytes, ok, err, arith, length, Bool-cases, inl, inr, find, any, retain, update_first,
  string_Eq, ◌===◌, beq_self, any-append, retain-append, length-append, is_ok,
}
use mathlib.Core.Path.{subst}
use text.Mathlib.TextEquality.{eq_iff}
use shadowgram.Group.{GroupMember, Commit, Crypto, not_authorized}
use shadowgram.Group.State.{
  GroupState, enter_epoch, add_member, remove_member, update_keys, is_active, is_named, has_left,
  is_creator, is_admin_role, is_admin, active_member_count,
}
use shadowgram.Group.Convergence.{Change, adds, removes, updates, change}

-- The entry after its member has left at `now`.
abbrev pub leave : ℕ → GroupMember → GroupMember
leave now m = record m { left_at = some now }

module _ (now : ℕ) (fp : String) where
  -- Leaving twice leaves no less.
  any_active-leave_left :
      (ms : List GroupMember) (m : GroupMember)
      → find (is_named fp) ms ≡ some m
      → has_left m ≡ true
      → any (is_active fp) (update_first (is_named fp) (leave now) ms) ≡ any (is_active fp) ms
  unfolding find any update_first
  any_active-leave_left [] m h l = refl
  any_active-leave_left (x ∷ ms) m h l = ground (arith, any_active-leave_left ms m)

  -- The other names keep their entries.
  retain-leave :
      (other : String) (ms : List GroupMember)
      → other ≢ fp
      → retain (is_named other) (update_first (is_named fp) (leave now) ms)
        ≡ retain (is_named other) ms
  unfolding retain update_first
  retain-leave other [] h = refl
  retain-leave other (x ∷ ms) h =
      ground (arith, eq_iff x.fingerprint fp, eq_iff x.fingerprint other, retain-leave other ms h)

  -- One active entry at most, which is the first of its name.
  abbrev pub IsOnce : List GroupMember → Type 0
  IsOnce [] = Unit
  IsOnce (m ∷ ms) =
      ((is_named fp m ≡ true) × (any (is_active fp) ms ≡ false))
      ⊎ ((is_named fp m ≡ false) × IsOnce ms)

  any_active-leave :
      (ms : List GroupMember)
      → IsOnce ms
      → any (is_active fp) (update_first (is_named fp) (leave now) ms) ≡ false
  unfolding any update_first
  any_active-leave [] h = refl
  any_active-leave (x ∷ ms) (inl h) = ground arith
  any_active-leave (x ∷ ms) (inr h) = ground (arith, any_active-leave ms h.1)

any_active-added :
    (s : GroupState) (m : GroupMember)
    → m.left_at ≡ none
    → any (is_active m.fingerprint) (s.members ++ m ∷ []) ≡ true
unfolding any
any_active-added s m present =
    ground (arith, any-append (is_active m.fingerprint) s.members (m ∷ []), beq_self m.fingerprint)

count-added :
    (s t : GroupState) (m : GroupMember)
    → t.members ≡ s.members ++ m ∷ []
    → m.left_at ≡ none
    → active_member_count t ≡ active_member_count s + 1
unfolding active_member_count retain
count-added s t m e present =
    let here = λ (x : GroupMember). not (has_left x) in
    ap (λ ms. length (retain here ms)) e
    ∙ ap length (retain-append here s.members (m ∷ []))
    ∙ length-append (retain here s.members) (retain here (m ∷ []))
    ∙ ground arith

-- The first entry of the name is the creator's, and the creator is there.
abbrev pub leads : String → List GroupMember → Bool
leads c ms = elim (find (is_named c) ms) [
  | none ↦ false
  | some m ↦ is_creator m.role && not (has_left m)
]

leads-append :
    (c : String) (ms : List GroupMember) (m : GroupMember)
    → leads c ms ≡ true
    → leads c (ms ++ m ∷ []) ≡ true
unfolding find
leads-append c [] m h = absurd (cc)
leads-append c (x ∷ ms) m h = ground (arith, leads-append c ms m)

leads-leave :
    (c fp : String) (now : ℕ) (ms : List GroupMember)
    → c ≢ fp
    → leads c ms ≡ true
    → leads c (update_first (is_named fp) (leave now) ms) ≡ true
unfolding find update_first
leads-leave c fp now [] ne h = h
leads-leave c fp now (x ∷ ms) ne h =
    ground (arith, eq_iff x.fingerprint c, eq_iff x.fingerprint fp, leads-leave c fp now ms ne)

leads-update_key :
    (c : String) (p : GroupMember → Bool) (key : Bytes) (ms : List GroupMember)
    → leads c ms ≡ true
    → leads c (update_first p (λ m. record m { key_package = key }) ms) ≡ true
unfolding find update_first
leads-update_key c p key [] h = h
leads-update_key c p key (x ∷ ms) h = ground (arith, leads-update_key c p key ms)

abbrev admin_in : String → List GroupMember → Bool
admin_in c ms = elim (find (is_active c) ms) [ none ↦ false | some m ↦ is_admin_role m.role ]

leads-admin_in : (c : String) (ms : List GroupMember) → leads c ms ≡ true → admin_in c ms ≡ true
unfolding find
leads-admin_in c [] h = absurd (cc)
leads-admin_in c (x ∷ ms) h = ground (arith, leads-admin_in c ms)

module _ (crypto : Crypto) where
  leads-remove_member :
      (now : ℕ) (s : GroupState) (fp c : String)
      → leads c s.members ≡ true
      → leads c (remove_member crypto now s fp).0.members ≡ true
  unfolding remove_member enter_epoch
  leads-remove_member now s fp c h = elim (Bool-cases (c === fp)) [
    | inl same ↦
        subst (λ f. leads c (remove_member crypto now s f).0.members ≡ true) ((eq_iff c fp).0 same)
          (ground arith)
    | inr other ↦
        let ne : c ≢ fp = λ e. ground (arith, eq_iff c fp) in
        ground (arith, leads-leave c fp now s.members ne h)
  ]

  leads-change :
      (s : GroupState) (x : Change) (c : String)
      → leads c s.members ≡ true
      → leads c (change crypto s x).0.members ≡ true
  unfolding change add_member update_keys enter_epoch
  leads-change s (adds m) c h = ground (arith, leads-append c s.members m h)
  leads-change s (removes now fp) c h = leads-remove_member now s fp c h
  leads-change s (updates key) c h = leads-update_key c _ key s.members h

  -- The creator stays an active administrator through every change, its removal included.
  pub change_keeps_creator :
      (s : GroupState) (x : Change) (c : String)
      → leads c s.members ≡ true
      → (leads c (change crypto s x).0.members ≡ true) × (is_admin (change crypto s x).0 c ≡ true)
  unfolding is_admin
  change_keeps_creator s x c h =
      let kept = leads-change s x c h in (kept, leads-admin_in c (change crypto s x).0.members kept)

module _ (crypto : Crypto) where
  -- A removal that succeeds takes the member out, if only its first entry can be active, and
  -- leaves the entries of every other name as they were.
  pub remove_member_removes :
      (now : ℕ) (s : GroupState) (fp other : String) (c : Commit)
      → (remove_member crypto now s fp).1 ≡ ok c
      → IsOnce now fp s.members
      → other ≢ fp
      → (any (is_active fp) (remove_member crypto now s fp).0.members ≡ false)
        × (retain (is_named other) (remove_member crypto now s fp).0.members
            ≡ retain (is_named other) s.members)
  unfolding remove_member enter_epoch
  remove_member_removes now s fp other c made once h =
      ground (arith, any_active-leave now fp s.members once, retain-leave now fp other s.members h)

  -- A member that has left and was added again cannot be removed: the call finds the entry that
  -- has left, and the member is as active as before, also where the call succeeds.
  pub remove_member_rejoined :
      (now : ℕ) (s : GroupState) (fp : String) (m : GroupMember)
      → find (is_named fp) s.members ≡ some m
      → has_left m ≡ true
      → any (is_active fp) (remove_member crypto now s fp).0.members ≡ any (is_active fp) s.members
  unfolding remove_member enter_epoch
  remove_member_rejoined now s fp m found left =
      ground (arith, any_active-leave_left now fp s.members m found left)

  members-add_member :
      (s : GroupState) (m : GroupMember)
      → any (is_active m.fingerprint) s.members ≡ false
      → (add_member crypto s m).0.members ≡ s.members ++ m ∷ []
  unfolding add_member enter_epoch
  members-add_member s m absent = ground arith

  -- Adding is refused, with no change, exactly for who is active. Who is added is active, and the
  -- group counts one more.
  pub add_member_cases :
      (s : GroupState) (m : GroupMember)
      → m.left_at ≡ none
      → ((any (is_active m.fingerprint) s.members ≡ true)
          × (add_member crypto s m ≡ (s, err (not_authorized "member already exists in group"))))
        ⊎ ((any (is_active m.fingerprint) s.members ≡ false)
            × (any (is_active m.fingerprint) (add_member crypto s m).0.members ≡ true)
            × (active_member_count (add_member crypto s m).0 ≡ active_member_count s + 1)
            × (is_ok (add_member crypto s m).1 ≡ true))
  unfolding add_member
  add_member_cases s m present = elim (Bool-cases (any (is_active m.fingerprint) s.members)) [
    | inl there ↦ inl (there, ground arith)
    | inr absent ↦
        let members = members-add_member s m absent in
        inr (
          absent,
          ap (any (is_active m.fingerprint)) members ∙ any_active-added s m present,
          count-added s (add_member crypto s m).0 m members present,
          ground arith,
        )
  ]
