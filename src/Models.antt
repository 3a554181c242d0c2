-- ===== src/Models.antt =====
-- models.py: the artifact types, one record for each dataclass, and the ids built from their content.
pub mod Research
pub mod Trading
pub mod Portfolio
pub mod Evaluation
