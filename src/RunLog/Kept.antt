-- ===== src/RunLog/Kept.antt =====
-- The ids that are accepted, and the runs that are kept under them.
use tracecore.Prelude.{
  ℕ, String, ◌≡◌, ◌≢◌, refl, sym, ◌∙◌, ap, ◌↔◌, ◌⊎◌, inl, inr, true, false, some, arith, ◌==◌,
  eq_iff, Bool-cases, code, Char, if◌then◌else◌,
}
use tracecore.Prelude.Dict.{Dict, get-put, get-put_self}
use tracecore.Prelude.Text.{empty, ◌◃◌, ◌<>◌, starts_with}
use tracecore.Value.{Value, obj, truthy, to_text, get_or_null}
use tracecore.Exc.{ok, ◌>>=◌, ok_inj, ok-ne-raised, >>=-eq-ok, Result-cases}
use tracecore.Files.{Library}
use tracecore.RunLog.{
  RunLog, id_char, matches_id, validate_run_id, write_run, persist_run, load_run, load_text,
}

-- Letters, digits, dots, underscores and dashes.
abbrev pub AreIdChars : String → Type 0
AreIdChars empty = Unit
AreIdChars (c ◃ s) = (id_char (code c) ≡ true) × AreIdChars s

-- One character or more, and then a line feed or nothing.
pub record IsMatched (s : String) : Type 0 where
  pub name : String
  pub named : name ≢ ""
  pub plain : AreIdChars name
  pub ends : (s ≡ name) ⊎ (s ≡ name <> "\n")

IsMatched-sound : (s : String) → matches_id s ≡ true → IsMatched s
unfolding matches_id
IsMatched-sound empty h = cc
IsMatched-sound (c ◃ s) h = elim (Bool-cases (s == "")) [
  | inl e ↦ record {
    name = c ◃ empty;
    named = λ q. cc;
    plain = (ground arith, tt);
    ends = inl (ap (λ r. c ◃ r) ((eq_iff s "").0 e));
  }
  | inr e ↦ elim (Bool-cases (s == "\n")) [
    | inl l ↦ record {
      name = c ◃ empty;
      named = λ q. cc;
      plain = (ground arith, tt);
      ends = inr (ap (λ r. c ◃ r) ((eq_iff s "\n").0 l));
    }
    | inr l ↦
        let rest = IsMatched-sound s (ground arith) in
        record {
          name = c ◃ rest.name;
          named = λ q. cc;
          plain = (ground arith, rest.plain);
          ends = longer c s rest.name rest.ends;
        }
  ]
]
  where
    longer :
        (c : Char) (s t : String)
        → (s ≡ t) ⊎ (s ≡ t <> "\n")
        → (c ◃ s ≡ c ◃ t) ⊎ (c ◃ s ≡ (c ◃ t) <> "\n")
    longer c s t (inl e) = inl (ap (λ r. c ◃ r) e)
    longer c s t (inr e) = inr (ap (λ r. c ◃ r) e)

-- A text of such characters, alone or with a line feed behind it.
matched_complete :
    (t : String) → t ≢ "" → AreIdChars t → (matches_id t ≡ true) × (matches_id (t <> "\n") ≡ true)
unfolding matches_id
matched_complete empty n h = absurd (n refl)
matched_complete (c ◃ empty) n h = (rw h.0 refl, rw h.0 refl)
matched_complete (c ◃ (b ◃ t)) n h =
    let rest = matched_complete (b ◃ t) (λ q. cc) h.1 in (ground arith, ground arith)

-- An id is accepted, as it is, exactly when it is one or more letters, digits, dots, underscores and
-- dashes, with or without a line feed behind them, and does not begin with a dot.
pub validate_run_id_iff :
    (s : String) → (validate_run_id s ≡ ok s) ↔ (IsMatched s × (starts_with s "." ≡ false))
unfolding validate_run_id
validate_run_id_iff s = (validated_sound s, λ p. validated_complete s p.0 p.1)
  where
    validated_sound :
        (s : String) → validate_run_id s ≡ ok s → IsMatched s × (starts_with s "." ≡ false)
    validated_sound s h = elim (Bool-cases (matches_id s)) [
      | inr m ↦ absurd (ok-ne-raised (sym (rw (validate_run_id, m) at h)))
      | inl m ↦ elim (Bool-cases (starts_with s ".")) [
        | inl d ↦ absurd (ok-ne-raised (sym (rw (validate_run_id, m, d) at h)))
        | inr d ↦ (IsMatched-sound s m, d)
      ]
    ]

    validated_complete :
        (s : String) → IsMatched s → starts_with s "." ≡ false → validate_run_id s ≡ ok s
    validated_complete s p d =
        let both = matched_complete p.name p.named p.plain in
        let m : matches_id s ≡ true = elim p.ends [ inl e ↦ rw e both.0 | inr e ↦ rw e both.1 ] in
        rw (validate_run_id, m, d) refl

validate_run_id-ok : (s t : String) → validate_run_id s ≡ ok t → s ≡ t
unfolding validate_run_id
validate_run_id-ok s t h = ground arith

module _ (lib : Library) where
  -- What is left by a call that returns.
  pub persisted :
      (text_of : Value → String) (now : ℕ) (result : Dict Value) (log after : RunLog)
      → persist_run lib text_of now result log ≡ ok after
      → let name = to_text text_of (get_or_null "run_id" result) in
        (validate_run_id name ≡ ok name) × (after ≡ write_run lib now result log name)
  unfolding persist_run
  persisted text_of now result log after h =
      let run_id = get_or_null "run_id" result in
      let name = to_text text_of run_id in
      elim (Bool-cases (truthy run_id)) [
        | inr t ↦ absurd (ok-ne-raised (sym (rw (persist_run, t) at h)))
        | inl t ↦
            let chain : (do n ← validate_run_id name; ok (write_run lib now result log n))
                ≡ ok after =
              rw (persist_run, t) at h in
            let (n, v, e) =
              >>=-eq-ok (validate_run_id name) (λ n. ok (write_run lib now result log n)) chain in
            let q : name ≡ n = validate_run_id-ok name n v in
            (v ∙ ap ok (sym q), sym (ok_inj e) ∙ ap (write_run lib now result log) (sym q))
      ]

  -- A run that is persisted is loaded again under the text of its id, if what was written reads
  -- back; and a call with any other id gives what it gave before.
  pub load_run-persist_run :
      (text_of : Value → String) (now : ℕ) (result : Dict Value) (log after : RunLog)
      → persist_run lib text_of now result log ≡ ok after
      → lib.load (lib.dump_indented (obj result)) ≡ some (obj result)
      → (other : String)
      → load_run lib other after ≡ (
          if to_text text_of (get_or_null "run_id" result) == other
          then ok (obj result)
          else load_run lib other log)
  unfolding load_run
  load_run-persist_run text_of now result log after h reads other =
      let name = to_text text_of (get_or_null "run_id" result) in
      let (v, e) = persisted text_of now result log after h in
      elim (Bool-cases (name == other)) [
        | inl q ↦
            let same : validate_run_id other ≡ ok name = rw (← (eq_iff name other).0 q) v in
            rw (q, load_run, same, e, get-put_self, load_text, reads) refl
        | inr q ↦
            rw (q, load_run)
              (elim (Result-cases (validate_run_id other)) [
                | inr (x, r) ↦ rw r refl
                | inl (n, r) ↦
                    let m : other ≡ n = validate_run_id-ok other n r in
                    rw (r, e, get-put, ← m, q) refl
              ])
      ]
