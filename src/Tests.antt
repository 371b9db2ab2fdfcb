-- ===== src/Tests.antt =====
-- The theorems at concrete inputs, and a few runs of the code.
mod Data
mod Codec
mod Clusters
mod Signatures
mod Scripts
mod Handlers
mod Dev
mod Versions
mod Providers
mod Composites
mod Routes
mod Overlap
mod Agents
mod Client
mod Files
