-- ===== src/Kvm/Virsh.antt =====
-- Virsh, the wrapper of the virsh command (tessia/baselib/hypervisors/kvm/virsh.py). Its state is the
-- object and the host's world.
pub mod Dominfo
pub mod Ran
pub mod Shutdown
pub mod Closing
mod Tests
use tessia_baselib.Prelude.{
  ℕ, zero, suc, ◌+◌, ◌*◌, ◌==◌, Bool, true, false, Option, none, some, List, [], ◌∷◌, ◌++◌, last,
  String, Text, lit, text_eq, strip, lstrip, ltb, if◌then◌else◌,
}
use tessia_baselib.Python.{
  runtime_error, key_error, attribute_error, out_of_fuel, Outcome, returned, raised, Method, pure,
  raise, lift, gets, modify, or_raise, except_runtime, ◌>>=◌, ◌>>◌,
}
use tessia_baselib.Linux.Host.{Host}
use tessia_baselib.Kvm.Virsh.Dominfo.{Info, state_of, parse_dominfo}

-- What the driver calls on the hypervisor's Linux and on the machine it runs on: copying a file
-- there, the files of `mkstemp`, the clock in milliseconds, and ElementTree.
pub record Services (h : Host) : Type 1 where
  pub push_file : Text → Text → Method h.World (Unit {0})
  pub write_temp : Text → Method h.World Text
  pub remove : Text → Method h.World (Unit {0})
  pub monotonic : h.World → ℕ
  pub Element : Type 0
  pub fromstring : Text → Outcome Element
  -- SubElement(element.find("os"), tag).text = text
  pub append_os : Element → Text → Text → Outcome Element
  pub tostring : Element → Text

-- `boot_params` of a network boot
pub record BootParams : Type 0 where
  pub kernel_uri : Option Text
  pub initrd_uri : Option Text
  pub cmdline : Option Text

module _ (h : Host) where
  -- Shell and connection are gone after `close`. `_host_cnn` is None or an object without a state of its own.
  pub record Virsh : Type 0 where
    pub host_cnn : Bool
    pub cmd_channel : Option h.Shell
    pub tmp_dir : Option Text

  abbrev pub State : Type 0
  State = Virsh × h.World

  -- what a call on the host does to the world beside the object
  unfoldable pub on_host : {A : Type 0} → Method h.World A → Method State A
  on_host m (v, w) = let (r, w') = m w in (r, (v, w'))

  unfoldable pub channel : Method State h.Shell
  channel (v, w) =
      (or_raise v.cmd_channel (attribute_error "'NoneType' object has no attribute 'run'"), (v, w))

  unfoldable pub run : Text → Method State (ℕ × Text)
  unfolding channel on_host
  run cmd = do shell ← channel; on_host (h.run shell cmd)

  unfoldable pub set_tmp_dir : Option Text → Method State (Unit {0})
  set_tmp_dir dir (v, w) = (returned tt, (record v { tmp_dir = dir }, w))

  unfoldable pub clean_tmp_dir : Method State (Unit {0})
  unfolding run set_tmp_dir
  clean_tmp_dir = do
    tmp_dir ← gets (λ s. s.0.tmp_dir)
    elim tmp_dir [ none ↦ pure tt | some dir ↦ (do run (lit "rm -rf " ++ dir); set_tmp_dir none) ]

  unfoldable pub raise_and_cleanup : {A : Type 0} → String → Method State A
  unfolding clean_tmp_dir
  raise_and_cleanup msg = do clean_tmp_dir; raise (runtime_error msg)

  -- a virsh command whose failure is reported after cleaning up
  unfoldable pub virsh_command : Text → Text → String → Method State (Unit {0})
  unfolding raise_and_cleanup
  virsh_command command argument msg = do
    result ← run (lit "virsh " ++ (command ++ (lit " " ++ argument)))
    if result.0 == 0 then pure tt else raise_and_cleanup msg

  unfoldable pub get_tmp_dir : Method State Text
  unfolding raise_and_cleanup
  get_tmp_dir = do
    tmp_dir ← gets (λ s. s.0.tmp_dir)
    elim tmp_dir [
      | some dir ↦ pure dir
      | none ↦ (do
        made ← run (lit "mktemp -d")
        if made.0 == 0
            then pure tt
            else raise (runtime_error "Error while creating temporary directory in the host: {}")
        let dir = strip made.1
        set_tmp_dir (some dir)
        changed ← run (lit "chmod 755 " ++ dir)
        if changed.0 == 0
            then pure tt
            else raise_and_cleanup
                "Failed to set permissions for temporary directory in the host: {}"
        pure dir)
    ]

  -- `close`
  unfoldable pub close : Method State (Unit {0})
  unfolding clean_tmp_dir
  close = do
    clean_tmp_dir
    shell ← channel
    on_host (h.close shell)
    modify (λ s. (record s.0 { cmd_channel = none; host_cnn = false }, s.1))

  unfoldable pub start : Text → Method State (Unit {0})
  unfolding virsh_command
  start domain_name = virsh_command (lit "start") domain_name "Error while starting domain {}: {}"

  unfoldable pub destroy : Text → Method State (Unit {0})
  unfolding virsh_command
  destroy domain_name =
      virsh_command (lit "destroy") domain_name "Error while destroying domain: {}: {}"

  unfoldable pub reset : Text → Method State (Unit {0})
  unfolding virsh_command
  reset domain_name = virsh_command (lit "reset") domain_name "Error while reseting domain {}: {}"

  unfoldable pub undefine : Text → Method State (Unit {0})
  unfolding virsh_command
  undefine domain_name =
      virsh_command (lit "undefine") domain_name "Error while undefining domain {}: {}"

  unfoldable pub get_dominfo : Text → Method State Info
  unfolding run
  get_dominfo domain_name = do
    result ← run (lit "virsh dominfo " ++ domain_name)
    if result.0 == 0
        then pure (parse_dominfo result.1)
        else raise (runtime_error "Error while getting dominfo for domain {}")

  unfoldable pub is_defined : Text → Method State Bool
  unfolding get_dominfo
  is_defined domain_name = except_runtime (do get_dominfo domain_name; pure true) (pure false)

  unfoldable pub is_running : Text → Method State Bool
  unfolding get_dominfo
  is_running domain_name =
      except_runtime (do dominfo ← get_dominfo domain_name; pure (state_of dominfo (lit "running")))
        (pure false)

module _ (h : Host) (services : Services h) where
  -- The `while True` of `shutdown`, for at most `fuel` rounds.
  unfoldable pub wait_shut_off : ℕ → ℕ → Text → Method (State h) (Unit {0})
  wait_shut_off zero time_end domain_name = raise out_of_fuel
  wait_shut_off (suc fuel) time_end domain_name = do
    dominfo ←
        except_runtime (get_dominfo h domain_name)
          (raise (runtime_error "Error while getting dominfo for domain {}"))
    now ← gets (λ s. services.monotonic s.1)
    let rest = wait_shut_off fuel time_end domain_name
    if state_of dominfo (lit "shut off")
        then pure tt
        else if ltb time_end now
        then destroy h domain_name
        else (do modify (λ s. (s.0, h.sleep 5 s.1)); rest)

  -- shutdown(domain_name, timeout), with the timeout in seconds
  unfoldable pub shutdown : ℕ → Text → ℕ → Method (State h) (Unit {0})
  unfolding wait_shut_off
  shutdown fuel domain_name timeout = do
    virsh_command h (lit "shutdown") domain_name "Error while shutting down domain: {}: {}"
    now ← gets (λ s. services.monotonic s.1)
    wait_shut_off fuel (now + timeout * 1000) domain_name

  -- _add_boot_tag
  unfoldable pub add_boot_tag : Text → Text → Text → Text → Outcome Text
  add_boot_tag domain_xml kernel_path initrd_path cmdline =
      ((do
        domain ← lift (services.fromstring domain_xml)
        with_kernel ← lift (services.append_os domain (lit "kernel") kernel_path)
        with_initrd ← lift (services.append_os with_kernel (lit "initrd") initrd_path)
        with_cmdline ← lift (services.append_os with_initrd (lit "cmdline") cmdline)
        pure (services.tostring with_cmdline))
        (tt {0})).0

  -- os.path.join, of a directory and a relative name
  unfoldable pub in_dir : Text → Text → Text
  in_dir dir name = elim (last dir) [
    | none ↦ name
    | some c ↦ dir ++ ((if c == 47 then [] else lit "/") ++ name)
  ]

  -- self._host_cnn.push_file
  unfoldable pub push_file : Text → Text → Method (State h) (Unit {0})
  push_file uri path = do
    host_cnn ← gets (λ s. s.0.host_cnn)
    if host_cnn
        then on_host h (services.push_file uri path)
        else raise (attribute_error "'NoneType' object has no attribute 'push_file'")

  unfoldable pub define : Text → Method (State h) (Unit {0})
  unfolding in_dir push_file
  define domain_xml = do
    path ← on_host h (services.write_temp domain_xml)
    dir ← get_tmp_dir h
    push_file (lit "file://" ++ path) (in_dir dir (lit "domain"))
    virsh_command h (lit "define") (in_dir dir (lit "domain")) "Error while defining domain: {}"
    on_host h (services.remove path)
    run h (lit "rm -f " ++ in_dir dir (lit "domain"))
    pure tt

  unfoldable pub define_netboot : Text → BootParams → Method (State h) (Unit {0})
  unfolding define add_boot_tag push_file
  define_netboot domain_xml boot_params = do
    kernel_uri ← lift (or_raise boot_params.kernel_uri (key_error "kernel_uri"))
    initrd_uri ← lift (or_raise boot_params.initrd_uri (key_error "initrd_uri"))
    cmdline ← lift (or_raise boot_params.cmdline (key_error "cmdline"))
    kernel_dir ← get_tmp_dir h
    let tmp_kernel = in_dir kernel_dir (lit "kernel")
    push_file kernel_uri tmp_kernel
    initrd_dir ← get_tmp_dir h
    let tmp_initrd = in_dir initrd_dir (lit "initrd")
    push_file initrd_uri tmp_initrd
    boot_xml ← lift (add_boot_tag domain_xml tmp_kernel tmp_initrd cmdline)
    define boot_xml
