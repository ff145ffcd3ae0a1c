-- ===== src/Examples.antt =====
-- Runs of the components at concrete inputs, one module to a component.
mod StoreRuns
mod StateRuns
mod FrigateRuns
mod DeviceRuns
mod CacheRuns
mod IncidentRuns
mod TokenRuns
mod DoorRuns
mod WebauthnRuns
mod OccupancyRuns
mod HouseRuns
mod MediaRuns
mod EdlRuns
mod RebuildRuns
