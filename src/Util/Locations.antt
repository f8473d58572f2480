-- ===== src/Util/Locations.antt =====
-- util/util.go: base64, the cluster of a kubeconfig, and the host and port of a URL. The calls of the Go
-- library and of client-go are parameters.
use Prim.Native.Nat.{◌^◌}
use addonconfig.Common.Result.{Result, ok, err, ok_injective, err_not_ok}
use addonconfig.Common.{
  ℕ, ◌≡◌, ◌<◌, ◌%◌, ◌-◌, ltb, refl, sym, subst, ap, ◌∙◌, String, Option, none, some, List, [], ◌∷◌,
  ◌==◌, if◌then◌else◌, arith,
}

-- `Base64Decode` and `Base64Encode`, of DecodeString and EncodeToString.
unfoldable pub base64_decode :
    {Error : Type 0} → (String → Result Error String) → String → Result Error String
base64_decode decode_string str = elim (decode_string str) [
  | err e ↦ err e
  | ok decoded ↦ ok decoded
]

unfoldable pub base64_encode : {Error : Type 0} → (String → String) → String → Result Error String
base64_encode encode_to_string str = ok (encode_to_string str)

-- clientcmdapi.Cluster, Context and Config; a pointer of a map that is nil is `none`.
pub record KubeCluster : Type 0 where
  pub server : String

pub record KubeContext : Type 0 where
  pub cluster : String

pub record KubeConfig : Type 0 where
  pub clusters : List (String × Option KubeCluster)
  pub contexts : List (String × Option KubeContext)
  pub current_context : String

-- A map of pointers at a key: nil for a key that it lacks.
unfoldable pub at_key {ℓ} : {A : Type ℓ} → List (String × Option A) → String → Option A
at_key [] key = none
at_key ((k, v) ∷ entries) key = if k == key then v else at_key entries key

abbrev of_context : KubeConfig → Option KubeContext → Option KubeCluster
of_context config none = none
of_context config (some context) = at_key config.clusters context.cluster

abbrev default_cluster : KubeConfig → Option KubeCluster → Option KubeCluster
default_cluster config (some cluster) = some cluster
default_cluster config none = of_context config (at_key config.contexts config.current_context)

-- `ParseClusterInfo`, of what clientcmd.Load comes to.
unfoldable pub parse_cluster_info :
    {Error : Type 0}
    → (String → Result Error KubeConfig)
    → String
    → Result Error (Option KubeCluster)
unfolding at_key
parse_cluster_info load kubeconfig = elim (load kubeconfig) [
  | err e ↦ err e
  | ok config ↦ ok (default_cluster config (at_key config.clusters ""))
]

-- `GetClusterServer`
unfoldable pub get_cluster_server : Option KubeCluster → String
get_cluster_server none = ""
get_cluster_server (some cluster) = cluster.server

-- What `Hostname` and `Port` give of a URL.
pub record Url : Type 0 where
  pub hostname : String
  pub port : String

-- A number with a sign: `negsuc n` is -(n + 1).
pub data ℤ : Type 0 where
  pos negsuc : ℕ → ℤ

-- The number whose last 32 bits, in two's complement, are `m`.
abbrev signed : ℕ → ℤ
signed m = if ltb m 2_147_483_648 then pos m else negsuc (4_294_967_295 - m)

-- `int32(port)`: the last 32 bits, in two's complement.
unfoldable pub to_int32 : ℤ → ℤ
to_int32 (pos n) = signed (n % 4_294_967_296)
to_int32 (negsuc n) = signed (4_294_967_295 - n % 4_294_967_296)

-- A number that a signed integer of this many bits can have.
abbrev pub Fits : ℕ → ℤ → Type 0
Fits bits (pos n) = n < 2 ^ (bits - 1)
Fits bits (negsuc n) = n < 2 ^ (bits - 1)

to_int32-exact : (n : ℤ) → Fits 32 n → to_int32 n ≡ n
unfolding to_int32
to_int32-exact (pos n) h = ground arith
to_int32-exact (negsuc n) h = ground arith

module _ {Error : Type 0} (parse : String → Result Error Url) where
  -- `ParseAddressFromURL`: where there is no host, the error that is returned is nil.
  unfoldable pub parse_address_from_url : String → Result Error String
  parse_address_from_url url = elim (parse url) [ err e ↦ err e | ok u ↦ ok u.hostname ]

  module _ (parse_int : String → (base bit_size : ℕ) → Result Error ℤ) where
    abbrev converted : Result Error ℤ → Result Error ℤ
    converted (err e) = err e
    converted (ok port) = ok (to_int32 port)

    abbrev port_of : Result Error Url → Result Error ℤ
    port_of (err e) = err e
    port_of (ok u) = converted (parse_int u.port 10 32)

    -- `ParsePortFromURL`; `parse_int` is ParseInt, with its base and its bit size.
    unfoldable pub parse_port_from_url : String → Result Error ℤ
    unfolding to_int32
    parse_port_from_url url = port_of (parse url)

    -- The port that is returned is the number that ParseInt gives for the text of the port, which the
    -- conversion to 32 bits does not change, and is in the range of 32 bits, if ParseInt returns no
    -- number that does not fit into the bit size that it is given, where that is positive.
    pub parse_port_from_url-exact :
        (url : String) (port : ℤ)
        → ((text : String) (base bit_size : ℕ) (n : ℤ)
            → 0 < bit_size
            → parse_int text base bit_size ≡ ok n
            → Fits bit_size n)
        → parse_port_from_url url ≡ ok port
        → (u : Url) × (parse url ≡ ok u) × (parse_int u.port 10 32 ≡ ok port) × Fits 32 port
    unfolding parse_port_from_url
    parse_port_from_url-exact url port fits h = go (parse url) refl h
      where
        number :
            (text : String) (r : Result Error ℤ)
            → parse_int text 10 32 ≡ r
            → converted r ≡ ok port
            → (parse_int text 10 32 ≡ ok port) × Fits 32 port
        number text (err e) p h = absurd (err_not_ok h)
        number text (ok n) p h =
            let small = fits text 10 32 n (omega arith) p in
            let same : n ≡ port = sym (to_int32-exact n small) ∙ ok_injective h in
            (p ∙ ap ok same, subst (Fits 32) same small)

        go :
            (r : Result Error Url)
            → parse url ≡ r
            → port_of r ≡ ok port
            → (u : Url) × (parse url ≡ ok u) × (parse_int u.port 10 32 ≡ ok port) × Fits 32 port
        go (err e) p h = absurd (err_not_ok h)
        go (ok u) p h =
            let (parsed, small) = number u.port (parse_int u.port 10 32) refl h in
            (u, p, parsed, small)
