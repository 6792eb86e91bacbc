-- ===== src/Registry.antt =====
-- internal/service/registry.go: the services of the configuration and the indices that requests are routed
-- by. A Go map is a list of keys and values with each key once; where the code ranges over a map, the list
-- stands for the order of the iteration.
pub mod Maps
pub mod Configs
pub mod Patterns
pub mod Indices
pub mod Routes
pub mod Lookups
pub mod Exact
pub mod Refinement
pub mod Unambiguous
pub mod Naming
pub mod Placeholders
pub mod Examples
