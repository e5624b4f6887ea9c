-- ===== src/Env/Network/Match.antt =====
-- What an allowlist entry matches.
use tracecore.Prelude.{
  String, ◌≡◌, ◌≢◌, sym, ap, ◌↔◌, inl, inr, true, arith, ◌==◌, eq_iff, eq_refl, Bool-cases, eqb,
}
use tracecore.Prelude.Text.{◌<>◌, starts_with, lstrip_by}
use tracecore.Prelude.Text.Split.{starts_with-append}
use tracecore.Prelude.Text.Ends.{
  length, length-append, length-lstrip_by, ends_with-append, append-ends_with,
}
use tracecore.Env.Network.{match_entry}

-- An entry is "*", a wildcard for what stands before a domain, or a host.
pub data Matches (entry host : String) : Type 0 where
  anything : entry ≡ "*" → Matches entry host
  below :
      (sub domain : String)
      → entry ≡ "*." <> domain
      → host ≡ sub <> "." <> domain
      → Matches entry host
  exactly : entry ≡ host → Matches entry host

match_sound : (entry host : String) → match_entry entry host ≡ true → Matches entry host
unfolding match_entry
match_sound entry host h = elim (Bool-cases (entry == "*")) [
  | inl e ↦ anything ((eq_iff entry "*").0 e)
  | inr n ↦ elim (Bool-cases (starts_with entry "*.")) [
    | inl w ↦
        let (domain, e) = starts_with-append entry "*." w in
        let (sub, q) = ends_with-append host ("." <> domain) (ground arith) in below sub domain e q
    | inr m ↦ exactly (sym ((eq_iff host entry).0 (ground arith)))
  ]
]

-- A host below a domain is longer than the domain.
below-ne :
    (sub domain : String) → sub <> "." <> domain ≢ lstrip_by (λ n. eqb n b'.') ("." <> domain)
unfolding lstrip_by
below-ne sub domain e = omega (
  arith,
  ap length e,
  length-append sub ("." <> domain),
  length-lstrip_by (λ n. eqb n b'.') domain,
)

match_below : (sub domain : String) → match_entry ("*." <> domain) (sub <> "." <> domain) ≡ true
unfolding match_entry starts_with
match_below sub domain =
    let host : String = sub <> "." <> domain in
    let bare : String = lstrip_by (λ n. eqb n b'.') ("." <> domain) in
    ground (
      arith,
      eq_iff ("*." <> domain) "*",
      append-ends_with sub ("." <> domain),
      eq_iff host bare,
      below-ne sub domain,
    )

match_exact : (host : String) → match_entry host host ≡ true
match_exact host = elim (Bool-cases (starts_with host "*.")) [
  | inl w ↦ let (domain, e) = starts_with-append host "*." w in rw e (match_below "*" domain)
  | inr n ↦ unfold match_entry in ground (arith, eq_refl host)
]

match_complete : (entry host : String) → Matches entry host → match_entry entry host ≡ true
unfolding match_entry
match_complete entry host (anything e) = ground (arith, eq_iff entry "*")
match_complete entry host (below sub domain e q) = rw (e, q) (match_below sub domain)
match_complete entry host (exactly e) = rw e (match_exact host)

-- An entry of the allowlist matches a host exactly when the entry is "*", or is "*." before a
-- domain and the host is some text, a dot and that domain, or is the host itself.
pub match_entry_iff : (entry host : String) → (match_entry entry host ≡ true) ↔ Matches entry host
match_entry_iff entry host = (match_sound entry host, match_complete entry host)
