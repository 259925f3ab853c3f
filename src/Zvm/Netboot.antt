-- ===== src/Zvm/Netboot.antt =====
-- HypervisorZvm._netboot (hypervisors/zvm/zvm.py): upload kernel, parameters and initrd to a virtual
-- disk, punch them to the reader and IPL from it.
use tessia_baselib.Prelude.{
  Bool, Option, none, some, List, [], ◌∷◌, ◌++◌, Text, lit, text_eq, if◌then◌else◌,
}
use tessia_baselib.Python.{
  runtime_error, returned, raised, Method, pure, raise, lift, option_case, ◌>>=◌, ◌>>◌,
}
use tessia_baselib.Cms.{Terminal, Match, error_regex, expect, ipl_cms}

pub record NetbootParams : Type 0 where
  pub kernel_uri : Text
  pub initrd_uri : Option Text
  pub cmdline : Text

abbrev kernel_file : Text
kernel_file = lit "KERNEL IMG T"

abbrev cmdline_file : Text
cmdline_file = lit "PARMFILE PARM T"

abbrev initrd_file : Text
initrd_file = lit "INITRD IMG T"

-- wait_prompts
abbrev ready : Text
ready = lit "Ready;"

abbrev ready_code : Text
ready_code = lit "Ready\\(\\d+\\);"

abbrev pub given : Option Text → Option Text
given none = none
given (some []) = none
given (some (c ∷ cs)) = some (c ∷ cs)

-- the commands that punch the files
unfoldable pub reader_commands : NetbootParams → List Text
reader_commands n =
    lit "spool punch * rdr"
    ∷ (lit "close reader"
        ∷ (lit "purge reader all"
            ∷ ((lit "punch " ++ (kernel_file ++ lit " (noh"))
                ∷ ((lit "punch " ++ (cmdline_file ++ lit " (noh"))
                    ∷ (option_case (given n.initrd_uri) []
                          (λ uri. (lit "punch " ++ (initrd_file ++ lit " (noh")) ∷ [])
                        ++ (lit "change reader all keep" ∷ (lit "spool pun off" ∷ [])))))))

module _ (t : Terminal) where
  -- GuestCms.run, and with use_cp
  unfoldable pub run : Text → List Text → Method t.World (Text × Option Match)
  run cmd wait_for = t.send_cmd cmd wait_for

  unfoldable pub run_cp : Text → List Text → Method t.World (Text × Option Match)
  run_cp cmd wait_for = t.send_cp cmd wait_for

  unfoldable pub run_ready : List Text → Method t.World (Unit {0})
  run_ready [] = pure tt
  run_ready (cmd ∷ cmds) = do
    answer ← run cmd (ready ∷ (ready_code ∷ []))
    m ← lift (
        option_case answer.1 (raised (runtime_error "Command '{}' returned unexpected output"))
          returned)
    if text_eq m.pattern ready_code
        then raise (runtime_error "Command '{}' failed with: {}")
        else run_ready cmds

  -- a disk that is there is detached
  unfoldable pub clear_vdisk : Method t.World (Unit {0})
  unfolding expect
  clear_vdisk = do
    answer ← run (lit "q v ffff") (error_regex ∷ (lit "(?i) ffff ON " ∷ []))
    m ← lift (
        option_case answer.1 (raised (runtime_error "Query device {} returned unexpected output"))
          returned)
    if text_eq m.pattern (lit "(?i) ffff ON ")
        then (do
          detached ← run (lit "detach ffff") (error_regex ∷ (lit "(?i)ffff detached" ∷ []))
          lift
              (expect "Detach {} returned unexpected output" "Detach {} failed with: {}" detached.1)
          pure tt)
        else pure tt

  unfoldable pub make_vdisk : Method t.World (Unit {0})
  unfolding expect
  make_vdisk = do
    defined ←
        run (lit "define vfb-512 as ffff blk 200000") (error_regex ∷ (lit "(?i)ffff defined" ∷ []))
    lift (expect "Define vdisk returned unexpected output" "Define vdisk failed with: {}" defined.1)
    formatted ← run (lit "format ffff t\\n1\\ntmpdsk") (lit "(?i)Ready;" ∷ [])
    lift (
        option_case formatted.1 (raised (runtime_error "Format vdisk returned unexpected output"))
          λ m. returned tt)

  -- temporary: the name of a temporary file that holds a text
  module _ (push_file : Text → Text → Method t.World (Unit {0})) (temporary : Text → Text)
      (user : Text) (no_profile : Bool) where
    unfoldable pub netboot : NetbootParams → Method t.World (Unit {0})
    unfolding clear_vdisk make_vdisk reader_commands run_ready
    netboot n = do
      ipl_cms t user no_profile
      run_cp (lit "term more 1 1") []
      clear_vdisk
      make_vdisk
      push_file n.kernel_uri kernel_file
      option_case (given n.initrd_uri) (pure tt) λ uri. push_file uri initrd_file
      push_file (lit "file://" ++ temporary n.cmdline) cmdline_file
      run_ready (reader_commands n)
      booted ← run (lit "ipl 00c clear") (lit "Kernel command line: " ∷ [])
      lift (
          option_case booted.1 (raised (runtime_error "Failed to IPL downloaded kernel"))
            λ m. returned tt)
