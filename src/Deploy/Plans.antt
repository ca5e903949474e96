-- ===== src/Deploy/Plans.antt =====
-- `plan` of host/task/deployjob.py and its checks of destinations. Python's `str.strip` and `os.path.basename`
-- are parameters, and so is what the file system says of a source.
use Prim.Native.Char.{Char, code}
use Prim.Native.String
use text.Mathlib.Text.{starts_with}
use rkcockpit.Common.{
  Bool, List, Option, String, any, [], false, if◌then◌else◌, leb, none, not, some, str_eq, ℕ, ◌&&◌,
  ◌==◌, ◌||◌, ◌∷◌, ◌+◌,
}
use rkcockpit.Common.Int.{ℤ, pos, negsuc}
use rkcockpit.Common.Dict.{Dict, insert}
use rkcockpit.Common.Result.{Result, ok, raised, ◌>>=◌}
use rkcockpit.Deploy.{File, Plan}
use rkcockpit.Deploy.Paths.{normpath}

abbrev pub dest_exact : List String
dest_exact = "/usr/bin" ∷ "/usr/local/bin" ∷ []

abbrev pub dest_top : List String
dest_top = "opt" ∷ "home" ∷ "data" ∷ "userdata" ∷ "tmp" ∷ "root" ∷ []

-- The ValueErrors of `plan`; a file's error has its position.
pub data PlanError : Type 0 where
  no_files bad_timeout timeout_out_of_range : PlanError
  no_source : ℕ → PlanError
  dangerous_dest : String → PlanError
  bad_mode : ℕ → PlanError

-- `d.lstrip("/")`
unfoldable pub lstrip_slash : String → String
lstrip_slash String.[] = String.[]
lstrip_slash (String.◌∷◌ c s) =
    let rest = lstrip_slash s in if code c == b'/' then rest else String.◌∷◌ c s

-- `s.split("/", 1)[0]`
unfoldable pub first_part : String → String
first_part String.[] = String.[]
first_part (String.◌∷◌ c s) =
    let rest = String.◌∷◌ c (first_part s) in if code c == b'/' then String.[] else rest

unfoldable pub is_below : String → String → Bool
is_below d wl = str_eq d wl || starts_with d (String.◌++◌ wl "/")

unfoldable pub check_normal : String → String → Result PlanError String
unfolding lstrip_slash first_part is_below
check_normal dest d =
    if not (starts_with d "/") || str_eq d "/"
    then raised (dangerous_dest dest)
    else if any (λ wl. is_below d wl) dest_exact
    then ok d
    else if any (λ top. str_eq (first_part (lstrip_slash d)) top) dest_top
    then ok d
    else raised (dangerous_dest dest)

unfoldable pub ends_with_slash : String → Bool
ends_with_slash String.[] = false
ends_with_slash (String.◌∷◌ c String.[]) = code c == b'/'
ends_with_slash (String.◌∷◌ c (String.◌∷◌ d s)) = ends_with_slash (String.◌∷◌ d s)

unfoldable pub is_octal : Char → Bool
is_octal c = leb b'0' (code c) && leb (code c) b'7'

-- `[0-7]{3}$`: a line feed may follow.
unfoldable pub three_octal : String → Bool
unfolding is_octal
three_octal (String.◌∷◌ a (String.◌∷◌ b (String.◌∷◌ c String.[]))) =
    is_octal a && is_octal b && is_octal c
three_octal (String.◌∷◌ a (String.◌∷◌ b (String.◌∷◌ c (String.◌∷◌ d String.[])))) =
    is_octal a && is_octal b && is_octal c && code d == 10
three_octal _ = false

-- `_MODE_RE`: `^0?[0-7]{3}$`
unfoldable pub is_mode : String → Bool
unfolding three_octal
is_mode String.[] = false
is_mode (String.◌∷◌ c s) = three_octal (String.◌∷◌ c s) || code c == b'0' && three_octal s

-- An entry of the request, each field as `str(... or "")`.
pub record RawFile : Type 0 where
  pub src : String
  pub dest : String
  pub mode : String

-- `timeout`: None or the empty text, no integer, or `int(timeout)`.
pub data Timeout : Type 0 where
  absent not_int : Timeout
  int : ℤ → Timeout

unfoldable pub timeout_of : Timeout → Result PlanError ℕ
timeout_of absent = ok 60
timeout_of not_int = raised bad_timeout
timeout_of (int (negsuc n)) = raised timeout_out_of_range
timeout_of (int (pos n)) = if leb 1 n && leb n 3600 then ok n else raised timeout_out_of_range

-- `strip` and `basename` of Python, and the size and time of a file (`none` if it is no file).
module _ (strip : String → String) (basename : String → String)
    (stat : String → Option (ℕ × ℕ)) where
  unfoldable pub check_dest : String → Result PlanError String
  unfolding check_normal normpath
  check_dest dest = check_normal dest (normpath (strip dest))

  -- The destination that an entry names: a directory takes the source's name.
  unfoldable pub full_dest : String → String → String
  unfolding ends_with_slash
  full_dest src dest = if ends_with_slash dest then String.◌++◌ dest (basename src) else dest

  -- One round of the loop after the test of the source: the entry.
  unfoldable pub plan_file : ℕ → String → RawFile → Result PlanError File
  unfolding check_dest full_dest is_mode
  plan_file i src raw = check_dest (full_dest src (strip raw.dest)) >>= λ dest.
      if is_mode (strip raw.mode)
      then ok (record { src = src; dest = dest; mode = strip raw.mode })
      else raised (bad_mode (i + 1))

  -- The size and time of a source; the empty text is none.
  unfoldable pub source_of : ℕ → String → Result PlanError (ℕ × ℕ)
  source_of i src =
      if str_eq src ""
      then raised (no_source (i + 1))
      else elim (stat src) [ none ↦ raised (no_source (i + 1)) | some st ↦ ok st ]

  unfoldable pub plan_files :
      ℕ → List RawFile → Dict (ℕ × ℕ) → Result PlanError (List File × Dict (ℕ × ℕ))
  unfolding plan_file source_of
  plan_files i [] sizes = ok ([], sizes)
  plan_files i (raw ∷ raws) sizes = source_of i (strip raw.src) >>= λ st.
      plan_file i (strip raw.src) raw >>= λ f.
      plan_files (i + 1) raws (insert (strip raw.src) st sizes) >>= λ r. ok (f ∷ r.0, r.1)

  -- `plan`, but for the store: the plan that it enters under its id.
  unfoldable pub plan :
      String → String → List RawFile → String → Timeout → Bool → Result PlanError Plan
  unfolding plan_files timeout_of
  plan plan_id device_id [] cmd timeout restart = raised no_files
  plan plan_id device_id (raw ∷ raws) cmd timeout restart = timeout_of timeout >>= λ seconds.
      plan_files 0 (raw ∷ raws) [] >>= λ r. ok (record {
        plan_id = plan_id;
        device_id = device_id;
        files = r.0;
        cmd = strip cmd;
        timeout = seconds;
        restart = restart;
        sizes = r.1;
      })
