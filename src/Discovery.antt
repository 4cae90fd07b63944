-- ===== src/Discovery.antt =====
-- internal/discovery: routes that are found in the cluster, and their merge with the static routes.
pub mod Annotations
pub mod Merge
pub mod Laws
pub mod Candidates
pub mod Statics
pub mod Accounting
pub mod Precedence
pub mod Controller
pub mod ControllerLaws
pub mod Watch
pub mod WatchLaws
pub mod Supervisor
