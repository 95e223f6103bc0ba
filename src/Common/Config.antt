-- ===== src/Common/Config.antt =====
-- common/config.py and common/connection.py: the settings from the environment, and the connection.
-- Python's `int` and `float` of a text are in `Conversions`.
pub mod Reference
mod Tests
use Prim.Native.Char.{code}
use warden_demo_workload.Prelude.{
  ℕ, ◌+◌, String, Bool, true, false, ◌||◌, ◌&&◌, Option, none, some, List, [], ◌∷◌, leb, ltb, ◌==◌,
  if◌then◌else◌,
}
use warden_demo_workload.Prelude.Int.{ℤ}
use warden_demo_workload.Python.Value.{Micro, Conversions, Result, ok, raised, ◌>>=◌, parsed}

-- `os.environ`
abbrev pub Env : Type 0
Env = String → Option String

pub record Config : Type 0 where
  pub address : String
  pub namespace : String
  pub api_key : String
  pub dashboard_host : String
  pub dashboard_port : ℤ
  pub order_start_rate_per_sec : Micro
  pub order_start_jitter : Micro
  pub courier_fleet_size : ℤ
  pub control_cache_refresh_sec : Micro
  pub order_stage_tracking : Bool

-- `os.environ.get(name, default)`
abbrev pub get_or : Option String → String → String
get_or none default = default
get_or (some raw) default = raw

-- The code points of a text.
abbrev pub codes : String → List ℕ
codes String.[] = []
codes (String.◌∷◌ c s) = code c ∷ codes s

abbrev pub is_any : ℕ → List ℕ → Bool
is_any n [] = false
is_any n (m ∷ ms) = if leb n m && leb m n then true else is_any n ms

-- The white space of `str.strip`.
abbrev pub is_space : ℕ → Bool
is_space n =
    (leb 9 n && leb n 13)
    || (leb 28 n && leb n 32)
    || (leb 8192 n && leb n 8202)
    || is_any n (133 ∷ 160 ∷ 5760 ∷ 8232 ∷ 8233 ∷ 8239 ∷ 8287 ∷ 12288 ∷ [])

unfoldable pub lstrip : List ℕ → List ℕ
lstrip [] = []
lstrip (n ∷ s) = let rest = lstrip s in if is_space n then rest else n ∷ s

abbrev keep : ℕ → List ℕ → List ℕ
keep n [] = if is_space n then [] else n ∷ []
keep n (m ∷ s) = n ∷ m ∷ s

unfoldable pub rstrip : List ℕ → List ℕ
rstrip [] = []
rstrip (n ∷ s) = keep n (rstrip s)

-- `str.lower` as far as it matters to a comparison with a text of ASCII characters: the letters A to
-- Z, and the Kelvin sign, whose lower case is k.
abbrev pub lower_code : ℕ → ℕ
lower_code n = if leb 65 n && leb n 90 then n + 32 else if is_any n (8490 ∷ []) then 107 else n

unfoldable pub lower : List ℕ → List ℕ
lower [] = []
lower (n ∷ s) = lower_code n ∷ lower s

abbrev pub same_text : List ℕ → List ℕ → Bool
same_text [] [] = true
same_text [] (m ∷ t) = false
same_text (n ∷ s) [] = false
same_text (n ∷ s) (m ∷ t) = if leb n m && leb m n then same_text s t else false

-- `raw.strip().lower() in ("1", "true", "yes", "on")`
unfoldable pub is_on : String → Bool
unfolding lstrip rstrip lower
is_on raw =
    let word = lower (rstrip (lstrip (codes raw))) in
    same_text word (codes "1")
    || same_text word (codes "true")
    || same_text word (codes "yes")
    || same_text word (codes "on")

-- `_flag`
unfoldable pub flag : Option String → Bool → Bool
unfolding is_on
flag none default = default
flag (some raw) default = if raw == "" then default else is_on raw

module _ (cv : Conversions) (env : Env) where
  abbrev int_setting : String → String → Result ℤ
  int_setting name default = parsed (cv.parse_int (get_or (env name) default))

  abbrev float_setting : String → String → Result Micro
  float_setting name default = parsed (cv.parse_float (get_or (env name) default))

  unfoldable pub load_config : Result Config
  unfolding flag
  load_config = int_setting "DASHBOARD_PORT" "8800" >>= λ port.
      float_setting "ORDER_START_RATE_PER_SEC" "0.6" >>= λ rate.
      float_setting "ORDER_START_JITTER" "0.2" >>= λ jitter.
      int_setting "COURIER_FLEET_SIZE" "10" >>= λ size.
      float_setting "CONTROL_CACHE_REFRESH_SEC" "2.5" >>= λ refresh. ok (record {
        address = get_or (env "TEMPORAL_ADDRESS") "";
        namespace = get_or (env "TEMPORAL_NAMESPACE") "";
        api_key = get_or (env "TEMPORAL_API_KEY") "";
        dashboard_host = get_or (env "DASHBOARD_HOST") "127.0.0.1";
        dashboard_port = port;
        order_start_rate_per_sec = rate;
        order_start_jitter = jitter;
        courier_fleet_size = size;
        control_cache_refresh_sec = refresh;
        order_stage_tracking = flag (env "ORDER_STAGE_TRACKING") true;
      })

-- The arguments of `Client.connect`; `tls` is true, and the metadata names the namespace.
pub record Connect : Type 0 where
  pub address : String
  pub namespace : String
  pub api_key : String
  pub tls : Bool
  pub rpc_metadata : List (String × String)

-- `connect`, up to the call of the client; none is the `RuntimeError`.
unfoldable pub connect : Config → Option Connect
connect c =
    if c.address == "" || c.namespace == "" || c.api_key == ""
    then none
    else some (record {
      address = c.address;
      namespace = c.namespace;
      api_key = c.api_key;
      tls = true;
      rpc_metadata = ("temporal-namespace", c.namespace) ∷ [];
    })
