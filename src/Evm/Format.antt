-- ===== src/Evm/Format.antt =====
-- modules/blockchain/evm/utils/format.ts, on the values that a decoded event holds. The test
-- `isHexString` of the package ethers is a parameter.
use nft_tracker.Prelude.{
  ℕ, ◌≡◌, refl, ap, ◌∙◌, subst, Text, text, Bool, true, false, ◌++◌, ◌===◌, inl, inr, to_lower,
  to_lower-to_lower, Bool-cases, if◌then◌else◌,
}

mutual
  pub data Value : Type 0 where
    -- `null` and `undefined`
    nothing : Value
    number : ℕ → Value
    boolean : Bool → Value
    string : Text → Value
    -- what `BigNumber.from` takes: a bigint, a BigNumber
    big : ℕ → Value
    array : Values → Value
    object : Entries → Value

  pub data Values : Type 0 where
    end : Values
    item : Value → Values → Values

  -- the keys of an object in order, with their values
  pub data Entries : Type 0 where
    no_more : Entries
    entry : Text → Value → Entries → Entries

module _ (is_hex_string : Text → Bool) where
  abbrev pub from_string : Text → Value
  from_string s =
      if s === text "true"
      then boolean true
      else if s === text "false"
      then boolean false
      else if is_hex_string s
      then string (to_lower s)
      else string s

  unfoldable mutual
    pub from : Value → Value
    from nothing = nothing
    from (number n) = number n
    from (boolean b) = boolean b
    from (string s) = from_string s
    from (big n) = big n
    from (array vs) = array (from_array vs)
    from (object es) = object (from_object es)

    pub from_array : Values → Values
    from_array end = end
    from_array (item v vs) = item (from v) (from_array vs)

    pub from_object : Entries → Entries
    from_object no_more = no_more
    from_object (entry key v es) = entry key (from v) (from_object es)

-- What the test promises: it takes texts behind `0x` alone, in either case of the letters.
pub record IsHexTest (is_hex_string : Text → Bool) : Type 0 where
  pub prefixed : (s : Text) → is_hex_string s ≡ true → (r : Text) × (s ≡ text "0x" ++ r)
  pub any_case : (s : Text) → is_hex_string s ≡ true → is_hex_string (to_lower s) ≡ true

module _ (is_hex_string : Text → Bool) (test : IsHexTest is_hex_string) where
  from_prefixed :
      (r : Text)
      → is_hex_string (text "0x" ++ r) ≡ true
      → from is_hex_string (string (text "0x" ++ r)) ≡ string (to_lower (text "0x" ++ r))
  unfolding from
  from_prefixed r h = rw h refl

  from_hex :
      (s : Text) → is_hex_string s ≡ true → from is_hex_string (string s) ≡ string (to_lower s)
  from_hex s h =
      let (r, e) = test.prefixed s h in
      rw e (from_prefixed r (subst (λ t. is_hex_string t ≡ true) e h))

  -- The value that a text is formatted to is left as it is.
  string_stays :
      (s : Text) → from is_hex_string (from_string is_hex_string s) ≡ from_string is_hex_string s
  unfolding from
  string_stays s = elim (Bool-cases (s === text "true")) [
    | inl t ↦ rw t refl
    | inr not_true ↦ elim (Bool-cases (s === text "false")) [
      | inl f ↦ rw (not_true, f) refl
      | inr not_false ↦ elim (Bool-cases (is_hex_string s)) [
        | inl h ↦
            rw (not_true, not_false, h)
              (from_hex (to_lower s) (test.any_case s h) ∙ ap string (to_lower-to_lower s))
        | inr no_hex ↦ rw (not_true, not_false, no_hex) (rw (not_true, not_false, no_hex) refl)
      ]
    ]
  ]

  mutual
    unfolding from

    value_stays : (v : Value) → from is_hex_string (from is_hex_string v) ≡ from is_hex_string v
    value_stays nothing = refl
    value_stays (number n) = refl
    value_stays (boolean b) = refl
    value_stays (string s) = string_stays s
    value_stays (big n) = refl
    value_stays (array vs) = ap array (array_stays vs)
    value_stays (object es) = ap object (object_stays es)

    array_stays :
        (vs : Values)
        → from_array is_hex_string (from_array is_hex_string vs) ≡ from_array is_hex_string vs
    array_stays end = refl
    array_stays (item v vs) = cc (value_stays v, array_stays vs)

    object_stays :
        (es : Entries)
        → from_object is_hex_string (from_object is_hex_string es) ≡ from_object is_hex_string es
    object_stays no_more = refl
    object_stays (entry key v es) = cc (value_stays v, object_stays es)

  -- Formatting a formatted value, with all that it holds, changes nothing.
  pub from-from : (v : Value) → from is_hex_string (from is_hex_string v) ≡ from is_hex_string v
  from-from = value_stays
