-- ===== src/Tests.antt =====
-- Runs of the model on small inputs, and each headline theorem at a concrete input.
mod Cubes
mod Moved
mod Composed
mod Maps
mod Indices
mod Texts
mod Coordinates
mod CubeTexts
mod Solvability
mod Written
mod Headers
mod Separations
mod Classes
mod Pruned
mod Symmetries
mod Answers
mod Dreo
