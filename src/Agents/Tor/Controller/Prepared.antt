-- ===== src/Agents/Tor/Controller/Prepared.antt =====
-- What a sync leaves on the disk, and when it asks for a reload.
use tor_controller.Base.{
  ◌≡◌, ◌≢◌, refl, ap, sym, ◌∙◌, subst, String, Bool, true, false, not, Option, none, some, str_eq,
  eq_iff, Bool-cases, inl, inr,
}
use tor_controller.Base.Exec.{Result, ok, err, panic, pure, raise, ◌>>=◌}
use tor_controller.Base.Exec.Leads.{Leads, Leads-pure, Leads-bind, Leads-weaken}
use tor_controller.Base.Disk.{
  Disk, File, Os, IoError, open_file, read_file, write_file, put_self, faulty, found_file, text_of,
  finish_write, mode_after,
}
use tor_controller.Controllers.Ensure.Keeps.{
  Keeps, Keeps-bind, Keeps-if, Keeps-pure, Keeps-raise, Keeps-crash,
}
use tor_controller.Agents.Tor.Files.{wrapped, reading, default_unix_permission}
use tor_controller.Agents.Tor.Files.Elsewhere.{At, Keeps-write}
use tor_controller.Agents.Tor.Controller.{changed, on_written, write_config, write_if}

-- The file is there and has the text.
abbrev pub Holds : String → Option File → Type 0
Holds config none = ⊥
Holds config (some f) = f.text ≡ config

-- `b` tells whether the file differs.
abbrev pub Tells : String → Option File → Bool → Type 0
Tells config o b = (b ≡ false → Holds config o) × (Holds config o → b ≡ false)

module _ (os : Os) (message config : String) where
  equal_text : (f : File) (b : Bool) → not (str_eq f.text config) ≡ b → Tells config (some f) b
  equal_text f b h = elim (Bool-cases (str_eq f.text config)) [
    | inl e ↦ ((λ _. (eq_iff f.text config).0 e), (λ _. sym h ∙ ap not e))
    | inr e ↦ (
      (λ z. absurd (let q : true ≡ false = ap not (sym e) ∙ (h ∙ z) in cc)),
      (λ t. absurd (let q : str_eq f.text config ≡ true = (eq_iff f.text config).1 t in cc)),
    )
  ]

  value : {b c : Bool} → ◌≡◌ {A = Result String Bool} (ok b) (ok c) → b ≡ c
  value h = cc

  changed-Tells :
      (c : Option String) (o : Option File) (d : Disk) (b : Bool)
      → (changed os message config (text_of (faulty c (found_file o))) d).0 ≡ ok b
      → ((changed os message config (text_of (faulty c (found_file o))) d).1 ≡ d) × Tells config o b
  unfolding changed pure raise
  changed-Tells none none d b h =
      let t : true ≡ b = value h in
      (refl, ((λ z. absurd (let q : true ≡ false = t ∙ z in cc)), (λ x. absurd x)))
  changed-Tells none (some f) d b h = (refl, equal_text f b (value h))
  changed-Tells (some m) o d b h = absurd (cc)

  -- Reading a file tells whether it differs, and changes nothing.
  pub read-Tells :
      (p : String) (P : Disk → Type 0)
      → Leads P
          (reading (read_file os p) >>= changed os message config)
          (λ b d. P d × Tells config (d.files p) b)
  unfolding read_file open_file ◌>>=◌
  read-Tells p P = record {
    at = λ d b h g.
        let (e, t) = changed-Tells (os.read_fault p d) (d.files p) d b g in
        subst (λ x. P x × Tells config (x.files p) b) (sym e) (h, t);
  }

module _ (os : Os) (p config message : String) where
  written :
      (c : Option (String × Option File)) (f : File) (d : Disk)
      → f.text ≡ config
      → (on_written os message (finish_write c p f d).0 (finish_write c p f d).1).0 ≡ ok tt
      → Holds config
          ((on_written os message (finish_write c p f d).0 (finish_write c p f d).1).1.files p)
  unfolding on_written pure raise
  written none f d e h = subst (Holds config) (sym (put_self p (some f) d)) e
  written (some (m, left)) f d e h = absurd (cc)

  write_config-holds :
      Leads (λ d. Unit {0}) (write_config os p config message) (λ u d. At p (Holds config) d)
  unfolding write_config write_file ◌>>=◌
  write_config-holds = record {
    at = λ d u h g.
        written (os.write_fault p d)
          (record { text = config; mode = mode_after os (d.files p) default_unix_permission }) d
          refl g;
  }

module _ (os : Os) (p config message : String) where
  -- If the file has the text, or else is to be written, it has the text afterwards.
  pub write_if-holds :
      (reload : Bool)
      → Leads
          (λ d. reload ≡ false → At p (Holds config) d)
          (write_if os reload p config message)
          (λ b d. (b ≡ reload) × At p (Holds config) d)
  unfolding write_if
  write_if-holds true =
      Leads-bind (write_config os p config message) _
        (Leads-weaken (write_config os p config message) (λ d h. tt) (λ u d h. h)
          (write_config-holds os p config message))
        (λ u. Leads-pure true (λ d h. (refl, h)))
  write_if-holds false = Leads-pure false (λ d h. (refl, h refl))

  on_written-At :
      (q : String) (Q : Option File → Type 0) (r : Result IoError (Unit {0}))
      → Keeps (At q Q) (on_written os message r)
  unfolding on_written
  on_written-At q Q (ok a) = Keeps-pure tt
  on_written-At q Q (err e) = Keeps-raise (wrapped message e)
  on_written-At q Q panic = Keeps-crash

  -- Another file stays as it is.
  pub write_if-At :
      (q : String) (Q : Option File → Type 0) (reload : Bool)
      → p ≢ q
      → Keeps (At q Q) (write_if os reload p config message)
  unfolding write_if write_config
  write_if-At q Q reload apart =
      Keeps-if reload _ _
        (λ _.
          Keeps-bind _ _
            (Keeps-bind (reading (write_file os p config default_unix_permission))
              (on_written os message) (Keeps-write q Q os p apart config default_unix_permission)
              (on_written-At q Q))
            (λ _. Keeps-pure reload))
        (λ _. Keeps-pure reload)
