-- ===== src/Web/Tokens.antt =====
-- Which session tokens are accepted.
use doota.Prelude.{
  ℕ, ◌+◌, ◌-◌, ◌*◌, ◌/◌, ◌≤◌, ◌<◌, ◌≡◌, refl, sym, ap, ◌∙◌, Bool, false, [], ◌∷◌, ◌++◌, Option,
  none, some, ◌==◌, arith, Bool-cases, inl, inr, Option-cases, exists_row, append_assoc, ltb,
  eq_self,
}
use doota.Prelude.Text.{Text, codes, decimal, is_empty, text_eq, text_eq_sound, text_eq_refl}
use doota.Web.Session.{cut, parse_int, is_expired, second, int_limit, issue, user_of, user_id}
use doota.Web.Decimal.{parse_int-decimal}

abbrev pub has_char : ℕ → Text → Bool
has_char sep t = exists_row (λ c. c == sep) t

cut-parts :
    (sep : ℕ) (s before after : Text) → cut sep s ≡ some (before, after) → s ≡ before ++ sep ∷ after
unfolding cut
cut-parts sep [] before after h = absurd cc
cut-parts sep (c ∷ cs) before after h = elim (Bool-cases (c == sep)) [
  | inl hit ↦
      let parts : ◌≡◌ {A = Option (Text × Text)} (some ([], cs)) (some (before, after)) =
        rw hit at h in
      let first : [] ≡ before = cc in
      let rest : cs ≡ after = cc in
      let same : c ≡ sep = ground arith in rw (sym first, sym rest, same) refl
  | inr miss ↦ elim (Option-cases (cut sep cs)) [
    | inl gone ↦ absurd (let wrong : none ≡ some (before, after) = rw (miss, gone) at h in cc)
    | inr ((b, a), found) ↦
        let parts : ◌≡◌ {A = Option (Text × Text)} (some (c ∷ b, a)) (some (before, after)) =
          rw (miss, found) at h in
        let first : c ∷ b ≡ before = cc in
        let rest : a ≡ after = cc in
        rw (sym first, sym rest) (ap (λ t. c ∷ t) (cut-parts sep cs b a found))
  ]
]

cut-append :
    (sep : ℕ) (before after : Text)
    → has_char sep before ≡ false
    → cut sep (before ++ sep ∷ after) ≡ some (before, after)
unfolding cut exists_row
cut-append sep [] after h = rw (eq_self sep) refl
cut-append sep (c ∷ cs) after h =
    let other : (c == sep) ≡ false = ground arith in
    rw (other, cut-append sep cs after (ground arith)) refl

user_of-payload :
    (ttl now : ℕ) (payload user : Text)
    → user_of ttl now payload ≡ some user
    → (issued : Text) × (payload ≡ user ++ b'|' ∷ issued) × (is_empty user ≡ false)
unfolding user_of
user_of-payload ttl now payload user h = elim (Option-cases (cut b'|' payload)) [
  | inl gone ↦ absurd (let wrong : none ≡ some user = rw (gone, user_of) at h in cc)
  | inr ((u, issued), found) ↦ elim (Bool-cases (is_empty u)) [
    | inl blank ↦ absurd (let wrong : none ≡ some user = rw (found, blank, user_of) at h in cc)
    | inr named ↦ elim (Option-cases (parse_int issued)) [
      | inl unread ↦
          absurd (let wrong : none ≡ some user = rw (found, named, unread, user_of) at h in cc)
      | inr (time, read) ↦ elim (Bool-cases (is_expired ttl now time)) [
        | inl late ↦
            absurd
              (let wrong : none ≡ some user = rw (found, named, read, late, user_of) at h in cc)
        | inr fresh ↦
            let kept : some u ≡ some user = rw (found, named, read, fresh, user_of) at h in
            let same : u ≡ user = cc in
            (issued, rw (sym same) (cut-parts b'|' payload u issued found), rw (sym same) named)
      ]
    ]
  ]
]

-- A token that is accepted carries a payload with its signature, and the payload names the user
-- that is returned: a token whose second part is not the signature of its first is refused.
pub user_id-signed :
    (sign : Text → Text) (decode : Text → Option Text) (ttl now : ℕ) (token user : Text)
    → user_id sign decode ttl now token ≡ some user
    → (encoded payload issued : Text) × (token ≡ encoded ++ b'.' ∷ sign payload)
      × (decode encoded ≡ some payload)
      × (payload ≡ user ++ b'|' ∷ issued)
      × (is_empty user ≡ false)
unfolding user_id user_of
user_id-signed sign decode ttl now token user h = elim (Option-cases (cut b'.' token)) [
  | inl gone ↦ absurd (let wrong : none ≡ some user = rw (gone, user_id) at h in cc)
  | inr ((encoded, mac), found) ↦ elim (Option-cases (decode encoded)) [
    | inl unread ↦ absurd (let wrong : none ≡ some user = rw (found, unread, user_id) at h in cc)
    | inr (payload, read) ↦ elim (Bool-cases (text_eq mac (sign payload))) [
      | inl same ↦
          let (issued, shape, named) =
            user_of-payload ttl now payload user (rw (found, read, same, user_id) at h) in
          (
            encoded,
            payload,
            issued,
            cut-parts b'.' token encoded mac found
                ∙ ap (λ t. encoded ++ b'.' ∷ t) (text_eq_sound mac (sign payload) same),
            read,
            shape,
            named,
          )
      | inr differs ↦
          absurd (let wrong : none ≡ some user = rw (found, read, differs, user_id) at h in cc)
    ]
  ]
]

-- A token names the user that it was issued for until its lifetime is over, where the coding of
-- the payload can be undone and has no dot in it, and the user's id has no bar in it.
pub user_id-issue :
    (sign encode : Text → Text) (decode : Text → Option Text) (ttl now later : ℕ) (user : Text)
    → ((t : Text) → decode (encode t) ≡ some t)
    → ((t : Text) → has_char b'.' (encode t) ≡ false)
    → is_empty user ≡ false
    → has_char b'|' user ≡ false
    → now / second < int_limit
    → later ≤ now / second * second + ttl
    → user_id sign decode ttl later (issue sign encode user now) ≡ some user
unfolding user_id user_of issue is_expired
user_id-issue sign encode decode ttl now later user undone no_dot named no_bar fits soon =
    let time = now / second in
    let payload = user ++ codes "|" ++ decimal time in
    let cut_token =
      ap (cut b'.') (append_assoc (encode payload) (codes ".") (sign payload))
      ∙ cut-append b'.' (encode payload) (sign payload) (no_dot payload) in
    let cut_payload =
      ap (cut b'|') (append_assoc user (codes "|") (decimal time))
      ∙ cut-append b'|' user (decimal time) no_bar in
    let fresh : ltb ttl (later - second * time) ≡ false = ground arith in
    rw
      (
        cut_token,
        undone payload,
        text_eq_refl (sign payload),
        cut_payload,
        named,
        parse_int-decimal time fits,
        fresh,
        user_id,
        user_of,
        is_expired,
      )
      refl
