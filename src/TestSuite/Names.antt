-- ===== src/TestSuite/Names.antt =====
-- test_suite/test.h: the names and paths that the tests hand to the programs that they start.
use kerberized_multimedia_in.Base.{ℕ, [], ◌∷◌, ◌++◌, Bytes, ◌==◌, if◌then◌else◌}
use kerberized_multimedia_in.CLib.{decimal}

-- WORKSPACE_DIR
unfoldable pub workspace_dir : Bytes
workspace_dir =
    b'/' ∷ b'h' ∷ b'o' ∷ b'm' ∷ b'e' ∷ b'/' ∷ b'j' ∷ b'e' ∷ b'f' ∷ b'f' ∷ b'r' ∷ b'e' ∷ b'y' ∷ b'/'
    ∷ b'm' ∷ b'u' ∷ b'l' ∷ b't' ∷ b'i' ∷ b'c' ∷ b'a' ∷ b's' ∷ b't' ∷ []

-- KSMTOOLS_DIR
unfoldable pub kmtools_dir : Bytes
kmtools_dir = workspace_dir ++ (b'/' ∷ b'k' ∷ b'm' ∷ b't' ∷ b'o' ∷ b'o' ∷ b'l' ∷ b's' ∷ [])

-- RUNTIME_DIR
unfoldable pub runtime_dir : Bytes
runtime_dir = workspace_dir ++ (b'/' ∷ b'b' ∷ b'i' ∷ b'n' ∷ [])

-- RESULTS_DIR
unfoldable pub results_dir : Bytes
results_dir = workspace_dir ++ (b'/' ∷ b'r' ∷ b'e' ∷ b's' ∷ b'u' ∷ b'l' ∷ b't' ∷ b's' ∷ [])

-- KSM1_CLIENT_EXE
unfoldable pub ksm1_client_exe : Bytes
ksm1_client_exe = kmtools_dir ++ (b'/' ∷ b's' ∷ b'c' ∷ b'l' ∷ b'i' ∷ b'e' ∷ b'n' ∷ b't' ∷ [])

-- KSM2_CLIENT_EXE
unfoldable pub ksm2_client_exe : Bytes
ksm2_client_exe = kmtools_dir ++ (b'/' ∷ b's' ∷ b'c' ∷ b'l' ∷ b'i' ∷ b'e' ∷ b'n' ∷ b't' ∷ b'2' ∷ [])

-- TEST_PASSWORD
unfoldable pub test_password : Bytes
test_password = b't' ∷ b'e' ∷ b's' ∷ b't' ∷ []

-- REALM
unfoldable pub realm : Bytes
realm = b'L' ∷ b'O' ∷ b'C' ∷ b'A' ∷ b'L' ∷ b'H' ∷ b'O' ∷ b'S' ∷ b'T' ∷ []

-- KSM1_GCKS_SNAME
unfoldable pub ksm1_gcks_sname : Bytes
ksm1_gcks_sname = b'k' ∷ b's' ∷ b'm' ∷ b'1' ∷ b'_' ∷ b'g' ∷ b'c' ∷ b'k' ∷ b's' ∷ b'1' ∷ []

-- KSM1_BASE_CLIENT_NAME
unfoldable pub ksm1_base_client_name : Bytes
ksm1_base_client_name =
    b'k' ∷ b's' ∷ b'm' ∷ b'1' ∷ b'_' ∷ b't' ∷ b'e' ∷ b's' ∷ b't' ∷ b'_' ∷ b'c' ∷ b'l' ∷ b'i' ∷ b'e'
    ∷ b'n' ∷ b't' ∷ []

-- KSM2_BASE_CLIENT_NAME
unfoldable pub ksm2_base_client_name : Bytes
ksm2_base_client_name =
    b'k' ∷ b's' ∷ b'm' ∷ b'2' ∷ b'_' ∷ b't' ∷ b'e' ∷ b's' ∷ b't' ∷ b'_' ∷ b'c' ∷ b'l' ∷ b'i' ∷ b'e'
    ∷ b'n' ∷ b't' ∷ []

-- "group"
unfoldable pub group : Bytes
group = b'g' ∷ b'r' ∷ b'o' ∷ b'u' ∷ b'p' ∷ []

-- ".cache"
unfoldable pub dot_cache : Bytes
dot_cache = b'.' ∷ b'c' ∷ b'a' ∷ b'c' ∷ b'h' ∷ b'e' ∷ []

-- KSM1_GCKS_PORT
abbrev pub ksm1_gcks_port : ℕ
ksm1_gcks_port = 7777

-- `base_client_name`
unfoldable pub base_client_name : ℕ → Bytes
base_client_name ksm = if ksm == 2 then ksm2_base_client_name else ksm1_base_client_name

-- `snprintf(client_name, 1024, "%s%d", base_client_name, i)`
unfoldable pub client_name : ℕ → ℕ → Bytes
client_name ksm i = base_client_name ksm ++ decimal i

-- `snprintf(cache_filepath, 1024, "%s/%s.cache", RUNTIME_DIR, client_name)`
unfoldable pub cache_filepath : Bytes → Bytes
cache_filepath name = runtime_dir ++ (b'/' ∷ (name ++ dot_cache))

-- `snprintf(group_name, 1024, "group%d", i)`
unfoldable pub group_name : ℕ → Bytes
group_name i = group ++ decimal i

-- `snprintf(timeLog_filepath, 1024, "%s/test1.dat.tmp", RESULTS_DIR)`, for the test of a number.
unfoldable pub time_log : ℕ → Bytes
time_log test =
    results_dir
    ++ (b'/' ∷ b't' ∷ b'e' ∷ b's' ∷ b't' ∷ [])
    ++ decimal test
    ++ (b'.' ∷ b'd' ∷ b'a' ∷ b't' ∷ b'.' ∷ b't' ∷ b'm' ∷ b'p' ∷ [])
