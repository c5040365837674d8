-- ===== src/ProviderExecutor/Registry.antt =====
-- apps/api/app/domain/provider_registry.py.
use deep_research_agent.Common.{
  ℕ, Bool, true, false, not, Option, none, some, List, [], ◌∷◌, ◌++◌, map, String, string_eq, leb,
  nat_eqb, if◌then◌else◌, length, keep_if, count_if, Result, ok, raise_if, ◌>>◌,
}
use deep_research_agent.Common.Dict.{get, put}

pub data CostClass : Type 0 where
  free low standard : CostClass

pub record ProviderCapability : Type 0 where
  pub provider_name : String
  pub supports_web_search : Bool
  pub supports_language : List String
  pub rate_limit_per_minute : Option ℕ
  pub cost_class : CostClass
  pub priority : ℕ
  pub enabled : Bool

pub data RegistryError : Type 0 where
  no_capability names_not_unique : RegistryError

pub record Registry : Type 0 where
  pub capabilities : List ProviderCapability
  pub by_name : List (String × ProviderCapability)

-- The stable sort by priority: a capability goes before those of its priority that came later.
unfoldable pub insert_capability :
    ProviderCapability → List ProviderCapability → List ProviderCapability
insert_capability c [] = c ∷ []
insert_capability c (d ∷ ds) =
    if leb c.priority d.priority then c ∷ d ∷ ds else d ∷ insert_capability c ds

unfoldable pub sort_capabilities : List ProviderCapability → List ProviderCapability
unfolding insert_capability
sort_capabilities [] = []
sort_capabilities (c ∷ cs) = insert_capability c (sort_capabilities cs)

-- `{cap.provider_name: cap for cap in …}`
unfoldable pub index_onto :
    List (String × ProviderCapability)
    → List ProviderCapability
    → List (String × ProviderCapability)
unfolding put
index_onto d [] = d
index_onto d (c ∷ cs) = index_onto (put c.provider_name c d) cs

abbrev pub is_nil : List ProviderCapability → Bool
is_nil [] = true
is_nil (c ∷ cs) = false

-- `SearchProviderRegistry.__init__`
unfoldable pub new_registry : List ProviderCapability → Result RegistryError Registry
unfolding sort_capabilities index_onto
new_registry capabilities =
    let sorted = sort_capabilities capabilities in
    let by_name = index_onto [] sorted in
    do
      raise_if (is_nil capabilities) no_capability
      raise_if (not (nat_eqb (length by_name) (length sorted))) names_not_unique
      ok (record { capabilities = sorted; by_name = by_name })

abbrev pub is_enabled : Option ProviderCapability → Bool
is_enabled none = false
is_enabled (some c) = c.enabled

-- `is_registered`
unfoldable pub is_registered : Registry → String → Bool
unfolding get
is_registered r name = is_enabled (get name r.by_name)

unfoldable pub active_providers : Registry → List String
active_providers r = map (λ c. c.provider_name) (keep_if (λ c. c.enabled) r.capabilities)

unfoldable pub pool_size : Registry → ℕ
pool_size r = count_if (λ c. c.enabled) r.capabilities

abbrev pub capability : String → Option ℕ → CostClass → ℕ → ProviderCapability
capability name limit cost priority = record {
  provider_name = name;
  supports_web_search = true;
  supports_language = "en" ∷ "zh" ∷ [];
  rate_limit_per_minute = limit;
  cost_class = cost;
  priority = priority;
  enabled = true;
}

-- `SearchProviderRegistry.default`
unfoldable pub default_registry :
    (brave_api_key_present duckduckgo_enabled : Bool) → Result RegistryError Registry
unfolding new_registry
default_registry brave_api_key_present duckduckgo_enabled = new_registry (
    capability "SearXNG" none free 1
      ∷ capability "Bing" none free 2
      ∷ (if brave_api_key_present then capability "Brave" (some 2000) low 3 ∷ [] else [])
    ++ (if duckduckgo_enabled then capability "DuckDuckGo" none free 4 ∷ [] else []))
