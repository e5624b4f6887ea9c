-- ===== src/RunLog/Listed.antt =====
-- What a limit makes of the runs that are listed.
use tracecore.Prelude.{
  ℕ, suc, zero, ◌+◌, ◌-◌, ◌≡◌, refl, sym, Bool, true, false, List, [], ◌∷◌, arith, leb,
  if◌then◌else◌, Bool-cases, inl, inr, take,
}
use tracecore.Prelude.Int.{ℤ, pos, negsuc, leb_ℤ}
use tracecore.Value.{Value}
use tracecore.Exc.{Result, ok, ◌>>=◌, ok_inj, >>=-eq-ok}
use tracecore.Files.{Library}
use tracecore.RunLog.{
  RunLog, File, Filters, keeps, keep_if, newest_first, load_text, iterated, iter_runs, collected,
  list_runs,
}

-- The runs that are asked for, after as many are there: one at least.
abbrev pub quota : ℤ → ℕ → ℕ
quota (pos limit) n = if leb limit (n + 1) then 1 else limit - n
quota (negsuc k) n = 1

quota_last : (limit : ℤ) (n : ℕ) → leb_ℤ limit (pos (n + 1)) ≡ true → quota limit n ≡ 1
quota_last (pos limit) n h = ground arith
quota_last (negsuc k) n h = refl

quota_more :
    (limit : ℤ) (n : ℕ)
    → leb_ℤ limit (pos (n + 1)) ≡ false
    → quota limit n ≡ suc (quota limit (n + 1))
quota_more (pos limit) n h = ground arith
quota_more (negsuc k) n h = ground arith

take-nil : (n : ℕ) → ◌≡◌ {A = List Value} (take n []) []
take-nil zero = refl
take-nil (suc n) = refl

-- A run that is kept, or not, in front of what the rest of the loop gives.
next_run :
    (limit : ℤ) (n : ℕ) (b : Bool) (v : Value) (ws : List Value) (more next : Result (List Value))
    → more ≡ ok (take (quota limit (n + 1)) ws)
    → next ≡ ok (take (quota limit n) ws)
    → (if b
        then (if leb_ℤ limit (pos (n + 1)) then ok (v ∷ []) else (do vs ← more; ok (v ∷ vs)))
        else next)
      ≡ ok (take (quota limit n) (keep_if b v ws))
next_run limit n false v ws more next m h = h
next_run limit n true v ws more next m h = elim (Bool-cases (leb_ℤ limit (pos (n + 1)))) [
  | inl e ↦ rw (e, quota_last limit n e) refl
  | inr e ↦ rw (e, quota_more limit n e, m) refl
]

module _ (lib : Library) (f : Filters) where
  collected-take :
      (limit : ℤ) (n : ℕ) (files : List File) (vs : List Value)
      → iterated lib f files ≡ ok vs
      → collected lib f limit n files ≡ ok (take (quota limit n) vs)
  unfolding iterated collected
  collected-take limit n [] vs h = rw (sym (ok_inj h)) (rw take-nil refl)
  collected-take limit n (file ∷ files) vs h =
      let (v, l, rest) = >>=-eq-ok (load_text lib file.text) _ h in
      let (b, k, rest') = >>=-eq-ok (keeps f v) _ rest in
      let (ws, i, e) = >>=-eq-ok (iterated lib f files) _ rest' in
      rw (l, k, ← ok_inj e)
        (next_run limit n b v ws (collected lib f limit (n + 1) files)
          (collected lib f limit n files) (collected-take limit (n + 1) files ws i)
          (collected-take limit n files ws i))

  -- If every file of the log can be read, `list_runs` gives the first of the runs that `iter_runs`
  -- yields: as many as its limit says, and one if the limit is zero or less.
  pub list_runs-take :
      (limit : ℤ) (log : RunLog) (vs : List Value)
      → iter_runs lib f log ≡ ok vs
      → list_runs lib f limit log ≡ ok (take (quota limit 0) vs)
  unfolding list_runs iter_runs
  list_runs-take limit log vs h = collected-take limit 0 (newest_first log) vs h
