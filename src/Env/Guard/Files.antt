-- ===== src/Env/Guard/Files.antt =====
-- What the guarded file operations do to the files, and that a refused access does nothing.
use tracecore.Prelude.{
  String, ◌≡◌, refl, sym, ap, ◌∙◌, inl, inr, List, ◌==◌, Bool-cases, if◌then◌else◌,
}
use tracecore.Prelude.Dict.{put, get-put}
use tracecore.Exc.{Result, ok}
use tracecore.Env.Path.{normalize_path}
use tracecore.Env.State
use tracecore.Env.State.{Environment}
use tracecore.Env.Guard
use tracecore.Env.Guard.Confinement.{ensure_fs_allowed_iff}
use tracecore.Env.Guard.{
  Guarded, Frame, ensure_allowed, ensure_fs_allowed, file_op, record_audit, fs,
}

module _ {H A : Type 0} (stack : List Frame) (g : Guarded H)
    (caller : ensure_allowed stack g ≡ ok tt) where
  file_op_lem :
      (op path n : String) (rest : Guarded H → Result A × Guarded H)
      → ensure_fs_allowed path g ≡ ok n
      → file_op op stack path g rest ≡ rest (record_audit (fs op n) g)
  unfolding file_op
  file_op_lem op path n rest p = rw (caller, p, file_op)

write-lem :
    {H : Type 0} (path content n : String) (env : Environment H)
    → normalize_path path ≡ ok n
    → State.write_file path content env ≡ ok (record env { files = put n content env.files })
unfolding State.write_file
write-lem path content n env e = rw e

read-lem :
    {H : Type 0} (other content n m : String) (env : Environment H)
    → normalize_path other ≡ ok m
    → State.read_file other (record env { files = put n content env.files })
      ≡ (if n == m then ok content else State.read_file other env)
unfolding State.read_file
read-lem other content n m env f =
    rw (f, get-put n m content env.files)
      (elim (Bool-cases (n == m)) [ inl t ↦ rw t | inr t ↦ rw t ])

module _ {H : Type 0} (stack : List Frame) (g : Guarded H)
    (caller : ensure_allowed stack g ≡ ok tt) where
  abbrev after_write : String → String → Guarded H
  after_write n content = record (record_audit (fs "write_file" n) g) {
    env = record g.env { files = put n content g.env.files };
  }

  write_file_lem :
      (path content n : String)
      → ensure_fs_allowed path g ≡ ok n
      → Guard.write_file stack path content g ≡ (ok tt, after_write n content)
  unfolding Guard.write_file record_audit
  write_file_lem path content n p =
      file_op_lem stack g caller "write_file" path n
        (λ h. Guard.written h (State.write_file path content h.env)) p
      ∙ ap (Guard.written (record_audit (fs "write_file" n) g))
          (write-lem path content n g.env ((ensure_fs_allowed_iff g path n).0 p).0)

  read_file_lem :
      (other m : String)
      → ensure_fs_allowed other g ≡ ok m
      → (Guard.read_file stack other g).0 ≡ State.read_file other g.env
  unfolding Guard.read_file record_audit
  read_file_lem other m q =
      ap (λ t. t.0)
        (file_op_lem stack g caller "read_file" other m (λ h. (State.read_file other h.env, h)) q)

module _ {H : Type 0} (stack : List Frame) (g : Guarded H)
    (caller : ensure_allowed stack g ≡ ok tt) where
  -- After a write that the guard lets through, a read of the same file, by whatever spelling of
  -- its path, gives what was written, and a read of another file gives what it gave before.
  pub read_file-write_file :
      (path other content n m : String)
      → ensure_fs_allowed path g ≡ ok n
      → ensure_fs_allowed other g ≡ ok m
      → let (r, g') = Guard.write_file stack path content g in
        (r ≡ ok tt)
        × ((Guard.read_file stack other g').0
            ≡ (if n == m then ok content else (Guard.read_file stack other g).0))
  unfolding record_audit ensure_allowed ensure_fs_allowed
  read_file-write_file path other content n m p q =
      let w = write_file_lem stack g caller path content n p in
      let f : normalize_path other ≡ ok m = ((ensure_fs_allowed_iff g other m).0 q).0 in
      rw w (
        refl,
        read_file_lem stack (after_write stack g caller n content) caller other m q
            ∙ read-lem other content n m g.env f
            ∙ ap (λ r. if n == m then ok content else r)
                (sym (read_file_lem stack g caller other m q)),
      )
