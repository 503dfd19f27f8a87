-- ===== src/Models.antt =====
-- src/ump/models.py: the data model that every other part of the program exchanges. A dataclass
-- is a record, its `__post_init__` is the function `post_init` of its module, and constructing it
-- is `make`: the validated record, or the error that the constructor raises.
pub mod Text
pub mod Json
pub mod Status
pub mod Step
pub mod Lease
pub mod Outcome
pub mod Codec
pub mod Messages
pub mod Plan
pub mod Samples
mod Tests
