-- ===== src/Visualization.antt =====
-- plugins/visualization/src: the data of the views of a user's tasks.
pub mod Graph
pub mod Matrix
