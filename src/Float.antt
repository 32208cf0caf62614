-- ===== src/Float.antt =====
-- Python floats: the operations and the order laws as interfaces (Core), and an instance that runs
-- (Fixed).
pub mod Core
pub mod Fixed
