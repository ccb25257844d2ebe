-- ===== src/Ingress/Headers.antt =====
-- Which values of which header are left by `strip_hop_by_hop_headers`.
use ferrotunnel.Base.{
  ◌≡◌, refl, ap, ◌∙◌, List, [], ◌∷◌, Option, none, some, Bool, false, eqb, ◌||◌, if◌then◌else◌,
  ◌==◌, bytes_key, length, arith, bytes_eqb_iff, bytes_eqb, ◌++◌, Option-cases, inl, inr,
}
use ferrotunnel.Frame.{Text}
use ferrotunnel.Ingress.{
  HeaderMap, to_lower, eq_ignore_ascii_case, host, hop_by_hop, trim, remove_named,
  remove_each_named, remove_names, named_tokens, strip_hop_by_hop_headers,
}

-- Some entry of a list of names is this name.
unfoldable pub contains : List Text → Text → Bool
contains [] name = false
contains (other ∷ names) name = (other == name) || contains names name

module _ {H : Type 0} (headers : HeaderMap H) where
  -- The header that an entry of a `Connection` value stands for: none for an empty entry, for `host`
  -- and for what spells no header name.
  unfoldable pub header_of : Text → Option Text
  header_of token =
      if eqb (length (trim token)) 0 || eq_ignore_ascii_case (trim token) host
      then none
      else headers.header_name (trim token)

  unfoldable pub headers_of : List Text → List Text
  headers_of [] = []
  headers_of (token ∷ tokens) = elim (header_of token) [
    | none ↦ headers_of tokens
    | some name ↦ name ∷ headers_of tokens
  ]

  get_all-remove_names :
      (h : H) (names : List Text) (name : Text)
      → headers.get_all (remove_names headers h names) name
        ≡ (if contains names name then [] else headers.get_all h name)
  unfolding remove_names contains
  get_all-remove_names h [] name = refl
  get_all-remove_names h (other ∷ names) name = grind (
    arith,
    get_all-remove_names (headers.remove h other) names name,
    headers.get_all-remove h other name,
  )

  remove_named_lem :
      (h : H) (token : Text)
      → remove_named headers h token
        ≡ elim (header_of token) [ none ↦ h | some name ↦ headers.remove h name ]
  unfolding remove_named header_of
  remove_named_lem h token = ground arith

  remove_each_named-remove_names :
      (h : H) (tokens : List Text)
      → remove_each_named headers h tokens ≡ remove_names headers h (headers_of tokens)
  unfolding remove_each_named remove_names headers_of
  remove_each_named-remove_names h [] = refl
  remove_each_named-remove_names h (token ∷ tokens) =
      ap (λ g. remove_each_named headers g tokens) (remove_named_lem h token)
      ∙ elim (header_of token)
          as (λ o.
            remove_each_named headers (elim o [ none ↦ h | some name ↦ headers.remove h name ])
              tokens
            ≡ remove_names headers h
                (elim o [ none ↦ headers_of tokens | some name ↦ name ∷ headers_of tokens ])) [
                  | none ↦ remove_each_named-remove_names h tokens
                  | some name ↦ remove_each_named-remove_names (headers.remove h name) tokens
                ]

  to_lower-host : to_lower host ≡ host
  unfolding to_lower
  to_lower-host = refl

  -- `host` is never the header that an entry stands for.
  header_of-host : (token : Text) → (header_of token ≡ some host) → ⊥
  unfolding header_of
  header_of-host token e =
      let spelled = headers.header_name-lower (trim token) host in
      ground (arith, spelled, to_lower-host, bytes_eqb_iff (to_lower (trim token)) (to_lower host))

  contains-host : (tokens : List Text) → contains (headers_of tokens) host ≡ false
  unfolding contains headers_of
  contains-host [] = refl
  contains-host (token ∷ tokens) = elim (Option-cases (header_of token)) [
    | inl e ↦ ground (arith, e, contains-host tokens)
    | inr (name, e) ↦
        ground (arith, e, contains-host tokens, header_of-host token, bytes_eqb_iff name host)
  ]

  -- The headers that are removed: the fixed ones, and those that the text of the first `Connection`
  -- value names.
  abbrev pub stripped : H → List Text
  stripped h = headers_of (named_tokens headers h) ++ hop_by_hop

  contains-append :
      (names more : List Text) (name : Text)
      → contains (names ++ more) name ≡ (contains names name || contains more name)
  unfolding contains
  contains-append [] more name = refl
  contains-append (other ∷ names) more name = ground (arith, contains-append names more name)

  hop_by_hop-host : contains hop_by_hop host ≡ false
  unfolding contains bytes_eqb
  hop_by_hop-host = refl

  get_all-strip :
      (h : H) (name : Text)
      → headers.get_all (strip_hop_by_hop_headers headers h) name
        ≡ (if contains (stripped h) name then [] else headers.get_all h name)
  unfolding strip_hop_by_hop_headers
  get_all-strip h name =
      let tokens = named_tokens headers h in
      get_all-remove_names (remove_each_named headers h tokens) hop_by_hop name
      ∙ grind (
        arith,
        get_all-remove_names h (headers_of tokens) name,
        remove_each_named-remove_names h tokens,
        contains-append (headers_of tokens) hop_by_hop name,
      )

  -- After the removal of the hop-by-hop headers, a header has no value when it is one of the fixed ones
  -- or the first `Connection` value names it, and each other header has the values it had; the `Host`
  -- header keeps its values whatever the `Connection` value names.
  pub strip_hop_by_hop_headers_lem :
      (h : H) (name : Text)
      → (headers.get_all (strip_hop_by_hop_headers headers h) name
          ≡ (if contains (stripped h) name then [] else headers.get_all h name))
        × (headers.get_all (strip_hop_by_hop_headers headers h) host ≡ headers.get_all h host)
  strip_hop_by_hop_headers_lem h name =
      let tokens = named_tokens headers h in
      (
        get_all-strip h name,
        get_all-strip h host
            ∙ rw (
              contains-append (headers_of tokens) hop_by_hop host,
              contains-host tokens,
              hop_by_hop-host,
            ),
      )
