-- ===== src/Kvm/Virsh/Closing.antt =====
-- What Virsh.close does (kvm/virsh.py).
use tessia_baselib.Prelude.{
  ◌≡◌, ◌⊎◌, inl, inr, refl, ℕ, Bool, false, ◌++◌, Option, none, some, Text, lit,
}
use tessia_baselib.Python.{Error, Outcome, returned, raised, modify, continue, ◌>>=◌}
use tessia_baselib.Python.Rules.{Post}
use tessia_baselib.Linux.Host.{Host}
use tessia_baselib.Kvm.Virsh.{
  Virsh, State, on_host, channel, run, set_tmp_dir, clean_tmp_dir, close,
}

module _ (h : Host) where
  -- The temporary directory of `v` was removed over the shell, if there was one.
  abbrev pub Removed : Virsh h → h.Shell → h.World → h.World → Type 0
  Removed v shell w cleaned =
      ((v.tmp_dir ≡ none) × (cleaned ≡ w))
      ⊎ ((dir : Text) × (answer : ℕ × Text) × (v.tmp_dir ≡ some dir)
          × (h.run shell (lit "rm -rf " ++ dir) w ≡ (returned answer, cleaned)))

  -- What happened from `v` and `w` to `s`.
  pub record Closed (v : Virsh h) (w : h.World) (s : State h) : Type 0 where
    pub shell : h.Shell
    pub had_shell : v.cmd_channel ≡ some shell
    pub cleaned : h.World
    pub removed : Removed v shell w cleaned
    pub shell_closed : h.close shell cleaned ≡ (returned tt, s.1)
    pub nothing_left : s.0 ≡ record { host_cnn = false; cmd_channel = none; tmp_dir = none }

  abbrev pub AnyError : Error → State h → Type 0
  AnyError e s = Unit

  abbrev Ends : Virsh h → h.World → Type 0
  Ends v w = Post (λ u s. Closed v w s) AnyError (close h (v, w)).0 (close h (v, w)).1

  -- the end of close, after the shell was closed
  after_close :
      (v : Virsh h) (w cleaned : h.World) (b : Bool) (shell : h.Shell)
      → v.cmd_channel ≡ some shell
      → Removed v shell w cleaned
      → (r : Outcome (Unit {0})) (w' : h.World) → h.close shell cleaned ≡ (r, w')
      → (let end =
            continue {S = State h} {A = Unit {0}} {B = Unit {0}} r
              (λ u s. (returned tt, (record s.0 { cmd_channel = none; host_cnn = false }, s.1)))
              (record { host_cnn = b; cmd_channel = some shell; tmp_dir = none }, w') in
          Post (λ u s. Closed v w s) AnyError end.0 end.1)
  after_close v w cleaned b shell c k (returned u) w' e = record {
    shell = shell;
    had_shell = c;
    cleaned = cleaned;
    removed = k;
    shell_closed = e;
    nothing_left = refl;
  }
  after_close v w cleaned b shell c k (raised x) w' e = tt

  close-Ends :
      (b : Bool) (o : Option h.Shell) (d : Option Text) (w : h.World)
      → Ends (record { host_cnn = b; cmd_channel = o; tmp_dir = d }) w
  unfolding close clean_tmp_dir set_tmp_dir run channel on_host modify ◌>>=◌
  close-Ends b none none w = tt
  close-Ends b none (some dir) w = tt
  close-Ends b (some shell) none w =
      after_close _ w w b shell refl (inl (refl, refl)) (h.close shell w).0 (h.close shell w).1 refl
  close-Ends b (some shell) (some dir) w =
      go (h.run shell (lit "rm -rf " ++ dir) w).0 (h.run shell (lit "rm -rf " ++ dir) w).1 refl
    where
      go :
          (r : Outcome (ℕ × Text)) (w' : h.World)
          → h.run shell (lit "rm -rf " ++ dir) w ≡ (r, w')
          → Ends (record { host_cnn = b; cmd_channel = some shell; tmp_dir = some dir }) w
      go (raised x) w' e = rw e tt
      go (returned answer) w' e = rw e (
          after_close (record { host_cnn = b; cmd_channel = some shell; tmp_dir = some dir }) w w' b
            shell refl (inr (dir, answer, refl, e)) (h.close shell w').0 (h.close shell w').1 refl)

  -- When close returns, it has run rm -rf on the temporary directory, if there was one, over the shell that
  -- the object had, whatever the exit status, then closed this shell, and nothing else; and no directory,
  -- shell or connection is on record.
  pub close_lem :
      (v : Virsh h) (w : h.World)
      → Post (λ u s. Closed v w s) AnyError (close h (v, w)).0 (close h (v, w)).1
  close_lem v w = close-Ends v.host_cnn v.cmd_channel v.tmp_dir w
