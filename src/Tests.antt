-- ===== src/Tests.antt =====
-- The theorems at concrete inputs.
mod PolicyTests
mod OcipTests
mod AutoResponseTests
mod AuthTests
mod ConnectorTests
mod TaskTests
mod SessionTests
mod WorkTests
