-- ===== src/Child.antt =====
-- `processChildEnvironment` of src/lib/process-child-environment.ts: the environment of a process that
-- the server starts. `Host` is `node:path`, `toLowerCase`, and which files are there.
pub mod Kept
mod Tests
use chatgpt_mcp_clean.Base.{
  ℕ, Bool, true, false, not, ◌&&◌, ◌||◌, Option, none, some, List, [], ◌∷◌, ◌++◌, any, ◌==◌,
  if◌then◌else◌, Text, codes, text_eq, to_lower, trim, Table, lookup, insert,
}

pub record Host : Type 0 where
  pub delimiter : ℕ
  pub join : Text → Text → Text
  -- It may throw.
  pub resolve : Text → Option Text
  pub lower : Text → Text
  pub file_exists : Text → Bool

abbrev pub or_empty : Option Text → Text
or_empty none = []
or_empty (some value) = value

abbrev pub value_of : Text → Table Text → Text
value_of name env = or_empty (lookup name env)

abbrev pub is_blank : Text → Bool
is_blank [] = true
is_blank (c ∷ s) = false

unfoldable pub path_key : Table Text → Text
unfolding to_lower
path_key [] = codes "PATH"
path_key ((name, value) ∷ env) =
    let rest = path_key env in if text_eq (to_lower name) (codes "path") then name else rest

unfoldable pub enabled : Text → Bool
unfolding to_lower trim
enabled value = not (
    any (λ off. text_eq off (to_lower (trim value)))
      (codes "0" ∷ codes "false" ∷ codes "off" ∷ codes "no" ∷ []))

-- `split(delimiter)`: the first part, and the others.
unfoldable pub split_on : ℕ → Text → Text × List Text
split_on d [] = ([], [])
split_on d (c ∷ s) =
    let rest = split_on d s in if c == d then ([], rest.0 ∷ rest.1) else (c ∷ rest.0, rest.1)

module _ (host : Host) where
  abbrev pub same_resolved : Option Text → Option Text → (part dir : Text) → Bool
  same_resolved (some a) (some b) part dir = text_eq (host.lower a) (host.lower b)
  same_resolved none b part dir = text_eq (host.lower part) (host.lower dir)
  same_resolved (some a) none part dir = text_eq (host.lower part) (host.lower dir)

  abbrev pub is_same_path : (part dir : Text) → Bool
  is_same_path part dir = same_resolved (host.resolve part) (host.resolve dir) part dir

  unfoldable pub contains : (dir path : Text) → Bool
  unfolding split_on
  contains dir path =
      let parts = split_on host.delimiter path in
      any (λ part. not (is_blank part) && is_same_path part dir) (parts.0 ∷ parts.1)

  abbrev pub before : (dir path : Text) → Text
  before dir path = if is_blank path then dir else dir ++ (host.delimiter ∷ path)

  abbrev pub behind : (dir path : Text) → Text
  behind dir path = if is_blank path then dir else path ++ (host.delimiter ∷ dir)

  -- A directory that the list of paths does not contain is put in front.
  abbrev pub put_before : (name dir : Text) → Table Text → Table Text
  put_before name dir env =
      if contains dir (value_of name env)
      then env
      else insert name (before dir (value_of name env)) env

  abbrev pub put_behind : (name dir : Text) → Table Text → Table Text
  put_behind name dir env =
      if contains dir (value_of name env)
      then env
      else insert name (behind dir (value_of name env)) env

  unfoldable pub add_encoding : Table Text → Table Text
  add_encoding env =
      if is_blank (value_of (codes "PYTHONIOENCODING") env)
      then insert (codes "PYTHONIOENCODING") (codes "utf-8") env
      else env

  abbrev pub joined : (dir part : Text) → Text
  joined dir part = if is_blank dir then [] else host.join dir part

  unfoldable pub add_local_bin : (key directory : Text) → Table Text → Table Text
  unfolding contains
  add_local_bin key directory env =
      let bin =
        if is_blank directory
        then []
        else host.join (host.join directory (codes "node_modules")) (codes ".bin") in
      if not (is_blank bin) && host.file_exists bin then put_before key bin env else env

  unfoldable pub add_python_src : (directory : Text) → Table Text → Table Text
  unfolding contains
  add_python_src directory env =
      let src = joined directory (codes "src") in
      let project = joined directory (codes "pyproject.toml") in
      if not (is_blank src)
        && not (is_blank project)
        && host.file_exists src
        && host.file_exists project
      then put_before (codes "PYTHONPATH") src env
      else env

  -- The first root with an `adb.exe` ends the loop; blank roots are left out.
  unfoldable pub add_android : (key : Text) → List Text → Table Text → Table Text
  unfolding contains
  add_android key [] env = env
  add_android key (root ∷ roots) env =
      let tools = host.join root (codes "platform-tools") in
      let others = add_android key roots env in
      if not (is_blank root) && host.file_exists (host.join tools (codes "adb.exe"))
      then put_before key tools env
      else others

  unfoldable pub add_busy : (key local_app_data : Text) → Table Text → Table Text
  unfolding contains
  add_busy key local_app_data env =
      let dir = joined local_app_data (codes "BusyCoordinator") in
      let command = joined dir (codes "busy-python.cmd") in
      if not (is_blank command) && host.file_exists command then put_behind key dir env else env

  -- Whether the first path is the proxy's directory.
  unfoldable pub already_prefixed : (path proxy : Text) → Bool
  unfolding split_on
  already_prefixed path proxy =
      let first = (split_on host.delimiter path).0 in
      not (is_blank first) && is_same_path first proxy

  abbrev pub put_first : (key dir : Text) → Table Text → Table Text
  put_first key dir env =
      if already_prefixed (value_of key env) dir
      then env
      else insert key (before dir (value_of key env)) env

  unfoldable pub add_proxy : (key proxy : Text) → Table Text → Table Text
  unfolding already_prefixed
  add_proxy key proxy env =
      if is_blank proxy
      then env
      else if host.file_exists (host.join proxy (codes "gh.exe"))
          && host.file_exists (host.join proxy (codes "git.exe"))
      then insert (codes "GHBUF_PROXY_DIR") proxy (put_first key proxy env)
      else env

  abbrev pub trimmed : Text → Table Text → Text
  trimmed name source = trim (value_of name source)

  -- The directory of the proxy, as configured or below the user's profile.
  abbrev pub proxy_dir : Table Text → Text
  proxy_dir source =
      let configured = trimmed (codes "MCP_GHBUF_PROXY_DIR") source in
      let profile = trimmed (codes "USERPROFILE") source in
      let below =
        host.join (host.join (host.join profile (codes ".local")) (codes "bin"))
          (codes "gh-buffer-proxy") in
      if is_blank configured then (if is_blank profile then [] else below) else configured

  abbrev pub android_roots : Table Text → List Text
  android_roots source =
      let data_dir = trimmed (codes "LOCALAPPDATA") source in
      let sdk =
        if is_blank data_dir
        then []
        else host.join (host.join data_dir (codes "Android")) (codes "Sdk") in
      trimmed (codes "ANDROID_SDK_ROOT") source
      ∷ trimmed (codes "ANDROID_HOME") source
      ∷ trim sdk
      ∷ []

  -- `directory` is the working directory, empty when there is none.
  unfoldable pub process_child_environment : (directory : Text) → Table Text → Table Text
  unfolding add_encoding add_local_bin add_python_src add_android add_busy add_proxy enabled
      path_key trim
  process_child_environment directory source =
      let encoded = add_encoding source in
      let key = path_key encoded in
      let with_bin = add_local_bin key directory encoded in
      let with_src = add_python_src directory with_bin in
      let with_tools = add_android key (android_roots source) with_src in
      let with_busy = add_busy key (trimmed (codes "LOCALAPPDATA") source) with_tools in
      if enabled (value_of (codes "MCP_GHBUF_PROXY_ENABLED") source)
      then add_proxy key (proxy_dir source) with_busy
      else with_busy
