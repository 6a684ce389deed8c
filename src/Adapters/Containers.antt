-- ===== src/Adapters/Containers.antt =====
-- src/docker.rs: the containers and their statistics, from the answers of Docker's API. A text is the list of
-- its code points; `f64` is the record Numbers.
use caroba_guard.Prelude.{
  ℕ, ◌+◌, ◌-◌, min, max, String, Bool, true, false, Option, none, some, List, [], ◌∷◌, map, ◌==◌,
  if◌then◌else◌, unwrap_or, take, codes, bytes_eq, strip_prefix, split_once, to_ascii_lowercase,
  parse_unsigned, Chars, trim_chars,
}
use caroba_guard.Telemetry.Counters.{u64}
use caroba_guard.Telemetry.Snapshot.{Numbers}
use caroba_guard.Json.{get, index, as_str, as_u64, as_array, object_values}
use caroba_guard.Context.{Value}

pub record RawContainer (Port : Type 0) : Type 0 where
  pub id : Chars
  pub names : List Chars
  pub image : Chars
  pub image_id : Chars
  pub command : Chars
  pub created : ℕ
  pub state : Chars
  pub status : Chars
  pub labels : List (Chars × Chars)
  pub ports : List Port

pub record ContainerSummary (Port : Type 0) : Type 0 where
  pub id : Chars
  pub name : Chars
  pub image : Chars
  pub image_id : Chars
  pub command : Chars
  pub created : ℕ
  pub state : Chars
  pub status : Chars
  pub compose_project : Option Chars
  pub health : Option Chars
  pub labels : List (Chars × Chars)
  pub ports : List Port

-- What stands after the first place of a pattern.
abbrev after_pattern : Chars → Chars → Option Chars
after_pattern pattern [] = strip_prefix pattern []
after_pattern pattern (c ∷ cs) = elim (strip_prefix pattern (c ∷ cs)) [
  | some rest ↦ some rest
  | none ↦ after_pattern pattern cs
]

abbrev up_to : Option (Chars × Chars) → Option Chars
up_to none = none
up_to (some (inner, rest)) = some (trim_chars inner)

abbrev health_in : Option Chars → Option Chars
health_in none = none
health_in (some rest) = up_to (split_once b')' rest)

unfoldable pub parse_health : Chars → Option Chars
parse_health status = health_in (after_pattern (codes "(health:") status)

abbrev without_slashes : Chars → Chars
without_slashes [] = []
without_slashes (c ∷ cs) = if c == b'/' then without_slashes cs else c ∷ cs

abbrev container_name : Chars → List Chars → Chars
container_name id [] = take 12 id
container_name id (name ∷ names) = without_slashes name

abbrev label : Chars → List (Chars × Chars) → Option Chars
label key [] = none
label key ((k, value) ∷ labels) = if bytes_eq k key then some value else label key labels

-- One entry of `containers`.
pub summary : {Port : Type 0} → RawContainer Port → ContainerSummary Port
unfolding parse_health
summary raw = record {
  id = raw.id;
  name = container_name raw.id raw.names;
  image = raw.image;
  image_id = raw.image_id;
  command = raw.command;
  created = raw.created;
  state = raw.state;
  status = raw.status;
  compose_project = label (codes "com.docker.compose.project") raw.labels;
  health = parse_health raw.status;
  labels = raw.labels;
  ports = raw.ports;
}

-- `containers`, after the answer has been parsed.
unfoldable pub containers :
    {Port : Type 0} → List (RawContainer Port) → List (ContainerSummary Port)
unfolding summary
containers raw = map summary raw

pub record DockerStatus : Type 0 where
  pub available : Bool
  pub socket : Chars
  pub version : Option Chars
  pub error : Option Chars

-- The version that the API answers, or the text of the error.
pub data VersionAnswer : Type 0 where
  version_answer api_error : Chars → VersionAnswer

unfoldable pub docker_status : Chars → VersionAnswer → DockerStatus
docker_status socket (version_answer version) = record {
  available = true;
  socket = socket;
  version = some version;
  error = none;
}
docker_status socket (api_error error) = record {
  available = false;
  socket = socket;
  version = none;
  error = some error;
}

abbrev saturated : ℕ → ℕ → ℕ
saturated a b = min (a + b) (u64 - 1)

abbrev field_at : List String → Value → Option Value
field_at [] value = some value
field_at (key ∷ keys) value = elim (get (codes key) value) [
  | none ↦ none
  | some found ↦ field_at keys found
]

abbrev u64_of : Option Value → ℕ
u64_of none = 0
u64_of (some value) = unwrap_or (as_u64 value) 0

abbrev number : Value → List String → ℕ
number value path = u64_of (field_at path value)

-- The bytes received and sent, or read and written.
pub record Traffic : Type 0 where
  pub inward : ℕ
  pub outward : ℕ

abbrev no_traffic : Traffic
no_traffic = record { inward = 0; outward = 0 }

abbrev add_network : Traffic → Value → Traffic
add_network sums network = record {
  inward = saturated sums.inward (u64_of (get (codes "rx_bytes") network));
  outward = saturated sums.outward (u64_of (get (codes "tx_bytes") network));
}

abbrev add_entry : Traffic → Value → Traffic
add_entry sums entry =
    let op = to_ascii_lowercase (unwrap_or (as_str (index (codes "op") entry)) []) in
    let value = u64_of (get (codes "value") entry) in
    if bytes_eq op (codes "read")
    then record sums { inward = saturated sums.inward value }
    else if bytes_eq op (codes "write")
    then record sums { outward = saturated sums.outward value }
    else sums

abbrev sum_of : (Traffic → Value → Traffic) → Traffic → List Value → Traffic
sum_of add sums [] = sums
sum_of add sums (value ∷ values) = sum_of add (add sums value) values

module _ (n : Numbers) where
  pub record ContainerStats : Type 0 where
    pub cpu_percent : n.F
    pub memory_used_bytes : ℕ
    pub memory_limit_bytes : ℕ
    pub network_rx_bytes : ℕ
    pub network_tx_bytes : ℕ
    pub block_read_bytes : ℕ
    pub block_write_bytes : ℕ

  abbrev cpu_share : ℕ → ℕ → ℕ → n.F
  cpu_share cpu_delta system_delta online_cpus =
      if system_delta == 0
      then n.of_u64 0
      else n.times
          (n.times (n.over (n.of_u64 cpu_delta) (n.of_u64 system_delta)) (n.of_u64 online_cpus))
          (n.of_u64 100)

  unfoldable pub parse_stats : Value → ContainerStats
  unfolding parse_unsigned
  parse_stats value =
      let cpu_delta =
        number value ("cpu_stats" ∷ "cpu_usage" ∷ "total_usage" ∷ [])
        - number value ("precpu_stats" ∷ "cpu_usage" ∷ "total_usage" ∷ []) in
      let system_delta =
        number value ("cpu_stats" ∷ "system_cpu_usage" ∷ [])
        - number value ("precpu_stats" ∷ "system_cpu_usage" ∷ []) in
      let networks =
        sum_of add_network no_traffic
          (unwrap_or (object_values (index (codes "networks") value)) []) in
      let blocks = sum_of add_entry no_traffic (
        unwrap_or
          (as_array
            (index (codes "io_service_bytes_recursive") (index (codes "blkio_stats") value)))
          []) in
      record {
        cpu_percent =
            cpu_share cpu_delta system_delta
              (max (number value ("cpu_stats" ∷ "online_cpus" ∷ [])) 1);
        memory_used_bytes =
            number value ("memory_stats" ∷ "usage" ∷ [])
            - number value ("memory_stats" ∷ "stats" ∷ "inactive_file" ∷ []);
        memory_limit_bytes = number value ("memory_stats" ∷ "limit" ∷ []);
        network_rx_bytes = networks.inward;
        network_tx_bytes = networks.outward;
        block_read_bytes = blocks.inward;
        block_write_bytes = blocks.outward;
      }
